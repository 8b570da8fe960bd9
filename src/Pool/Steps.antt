-- ===== src/Pool/Steps.antt =====
-- About the pool of internal/core/runner.go under any sequence of its methods.
use go_flywheel.Base.{
  Bool, Bool-cases, Option, ap, arith, false, if◌then◌else◌, inl, inr, ltb, none, refl, some, subst,
  suc, sym, true, zero, ℕ, ◌+◌, ◌-◌, ◌<◌, ◌==◌, ◌∙◌, ◌≡◌, ◌≤◌,
}
use go_flywheel.Base.Int.{negsuc, pos, ℤ}
use go_flywheel.Pool.{
  Pool, admit, admit_locked, at_least_one, end_run, min_ℕ, new_pool, release, release_some,
  set_limit, start_run, try_reserve,
}

pub record PoolOk (p : Pool) : Type 0 where
  pub some_slot : 1 ≤ p.limit
  pub within : p.limit ≤ p.size
  pub idle_iff : p.idle_closed ≡ (p.held == 0)

-- One method of the pool that does not wait, and what it leaves: `none` for a panic.
pub data Step (p : Pool) : Option Pool → Type 0 where
  limits : (n : ℤ) → Step p (some (set_limit n p))
  reserves : (want : ℤ) (q : Pool) (n : ℕ) → try_reserve want p ≡ some (q, n) → Step p (some q)
  admits : (n : ℤ) → Step p (some (admit n p))
  releases : (n : ℤ) → Step p (release n p)
  starts : Step p (some (start_run p))
  ends : Step p (end_run p)

pub data Steps (start : ℤ) : Option Pool → Type 0 where
  made : Steps start (some (new_pool start))
  then_step : (p : Pool) (r : Option Pool) → Steps start (some p) → Step p r → Steps start r

-- A pool that is there and well formed.
abbrev pub Fine : Option Pool → Type 0
Fine r = (p : Pool) × (r ≡ some p) × PoolOk p

new_pool-PoolOk : (n : ℤ) → PoolOk (new_pool n)
unfolding new_pool
new_pool-PoolOk (pos zero) = record {
  some_slot = omega arith;
  within = omega arith;
  idle_iff = refl;
}
new_pool-PoolOk (pos (suc n)) = record {
  some_slot = omega arith;
  within = omega arith;
  idle_iff = refl;
}
new_pool-PoolOk (negsuc n) = record {
  some_slot = omega arith;
  within = omega arith;
  idle_iff = refl;
}

at_least_one_pos : (n : ℤ) → 1 ≤ at_least_one n
at_least_one_pos (pos zero) = omega arith
at_least_one_pos (pos (suc n)) = omega arith
at_least_one_pos (negsuc n) = omega arith

set_limit-PoolOk : (n : ℤ) (p : Pool) → PoolOk p → PoolOk (set_limit n p)
unfolding set_limit
set_limit-PoolOk n p w = elim (Bool-cases (min_ℕ (at_least_one n) p.size == p.limit)) [
  | inl e ↦ rw e w
  | inr e ↦ rw e (record {
    some_slot =
        one_or_more (at_least_one n) p.size p.limit (at_least_one_pos n) w.some_slot w.within;
    within = at_most (at_least_one n) p.size;
    idle_iff = w.idle_iff;
  })
]
  where
    one_or_more : (a s l : ℕ) → 1 ≤ a → 1 ≤ l → l ≤ s → 1 ≤ min_ℕ a s
    one_or_more a s l h k m = ground arith

    at_most : (a s : ℕ) → min_ℕ a s ≤ s
    at_most a s = ground arith

pub admit_locked-PoolOk : (n : ℕ) (p : Pool) → 0 < n → PoolOk p → PoolOk (admit_locked n p)
unfolding admit_locked
admit_locked-PoolOk n p h w = record {
  some_slot = w.some_slot;
  within = w.within;
  idle_iff = filled p.held n p.idle_closed w.idle_iff h;
}
  where
    filled :
        (held n : ℕ) (b : Bool)
        → b ≡ (held == 0)
        → 0 < n
        → (if held == 0 then false else b) ≡ (held + n == 0)
    filled held n b e k = ground arith

pub release_some-Fine : (k : ℕ) (p : Pool) → k ≤ p.held → PoolOk p → Fine (release_some k p)
release_some-Fine zero p h w = (p, refl, w)
release_some-Fine (suc k) p h w = elim (Bool-cases (p.held - suc k == 0)) [
  | inl e ↦ (
    record p { held = p.held - suc k; freed = suc p.freed; idle_closed = true },
    rw (nonzero k, e, open_idle) refl,
    record { some_slot = w.some_slot; within = w.within; idle_iff = sym e },
  )
  | inr e ↦ (
    record p { held = p.held - suc k; freed = suc p.freed },
    rw (nonzero k, e) refl,
    record {
      some_slot = w.some_slot;
      within = w.within;
      idle_iff = w.idle_iff ∙ (busy p.held (suc k) (omega arith) h ∙ sym e);
    },
  )
]
  where
    nonzero : (n : ℕ) → (suc n == 0) ≡ false
    nonzero n = ground arith

    busy : (held n : ℕ) → 0 < n → n ≤ held → (held == 0) ≡ false
    busy held n a b = ground arith

    open_idle : p.idle_closed ≡ false
    open_idle = w.idle_iff ∙ busy p.held (suc k) (omega arith) h

release-Fine : (n : ℤ) (p : Pool) → PoolOk p → Fine (release n p)
unfolding release
release-Fine (pos zero) p w = (p, refl, w)
release-Fine (pos (suc n)) p w =
    release_some-Fine (min_ℕ (suc n) p.held) p (at_most (suc n) p.held) w
  where
    at_most : (a s : ℕ) → min_ℕ a s ≤ s
    at_most a s = ground arith
release-Fine (negsuc n) p w = (p, refl, w)

-- A reserve that does not wait takes at least one slot, no more than was asked for (at least 1), and
-- leaves no more slots held than the limit.
pub try_reserve-takes :
    (want : ℤ) (p q : Pool) (n : ℕ)
    → try_reserve want p ≡ some (q, n)
    → (q ≡ admit_locked n p) × (1 ≤ n) × (n ≤ at_least_one want) × (p.held + n ≤ p.limit)
unfolding try_reserve
try_reserve-takes want p q n h = elim (Bool-cases (ltb p.held p.limit)) [
  | inl e ↦
      let granted : Pool × ℕ = (admit_locked taken p, taken) in
      let asked_for : Pool × ℕ = (q, n) in
      let same : some granted ≡ some asked_for = sym (rw e refl) ∙ h in
      let (pool_same, count_same) = pair same in
      (
        rw (← count_same) (sym pool_same),
        rw (← count_same)
            (one_or_more (at_least_one want) p.held p.limit e (at_least_one_pos want)),
        rw (← count_same) (asked (at_least_one want) (p.limit - p.held)),
        rw (← count_same) (fits (at_least_one want) p.held p.limit e),
      )
  | inr e ↦ absurd (waits (sym (rw e refl) ∙ h))
]
  where
    taken : ℕ
    taken = min_ℕ (at_least_one want) (p.limit - p.held)

    pair : {x y : Pool × ℕ} → some x ≡ some y → (x.0 ≡ y.0) × (x.1 ≡ y.1)
    pair {x} {y} k = let e : x ≡ y = cc in (ap (λ z. z.0) e, ap (λ z. z.1) e)

    waits : {x : Pool × ℕ} → none ≡ some x → ⊥
    waits k = cc

    one_or_more : (a h l : ℕ) → ltb h l ≡ true → 1 ≤ a → 1 ≤ min_ℕ a (l - h)
    one_or_more a h l k m = ground arith

    asked : (a b : ℕ) → min_ℕ a b ≤ a
    asked a b = ground arith

    fits : (a h l : ℕ) → ltb h l ≡ true → h + min_ℕ a (l - h) ≤ l
    fits a h l k = ground arith

admit-PoolOk : (n : ℤ) (p : Pool) → PoolOk p → PoolOk (admit n p)
unfolding admit
admit-PoolOk (pos zero) p w = w
admit-PoolOk (pos (suc n)) p w = admit_locked-PoolOk (suc n) p (omega arith) w
admit-PoolOk (negsuc n) p w = w

start_run-PoolOk : (p : Pool) → PoolOk p → PoolOk (start_run p)
unfolding start_run
start_run-PoolOk p w = record { some_slot = w.some_slot; within = w.within; idle_iff = w.idle_iff }

Step-Fine : (p : Pool) (r : Option Pool) → PoolOk p → Step p r → Fine r
unfolding end_run
Step-Fine p _ w (limits n) = (set_limit n p, refl, set_limit-PoolOk n p w)
Step-Fine p _ w (reserves want q n e) =
    let (same, some_taken, most, fits) = try_reserve-takes want p q n e in
    (q, refl, rw same (admit_locked-PoolOk n p (omega arith) w))
Step-Fine p _ w (admits n) = (admit n p, refl, admit-PoolOk n p w)
Step-Fine p _ w (releases n) = release-Fine n p w
Step-Fine p _ w starts = (start_run p, refl, start_run-PoolOk p w)
Step-Fine p _ w ends =
    release-Fine (pos 1) (record p { running = p.running - 1 })
      (record { some_slot = w.some_slot; within = w.within; idle_iff = w.idle_iff })

-- However its methods are interleaved, a pool never panics by closing a closed channel, its limit
-- stays between 1 and its size, and its idle channel is closed exactly when no slot is held.
pub pool_never_panics : (start : ℤ) (r : Option Pool) → Steps start r → Fine r
pool_never_panics start _ made = (new_pool start, refl, new_pool-PoolOk start)
pool_never_panics start r (then_step p _ before step) =
    let (q, e, w) = pool_never_panics start (some p) before in
    Step-Fine p r (subst PoolOk (cc) w) step
