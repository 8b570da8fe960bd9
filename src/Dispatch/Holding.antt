-- ===== src/Dispatch/Holding.antt =====
-- About the pool of internal/core/runner.go, as claimAndDispatch uses it: the slots it holds.
use go_flywheel.Base.{
  Bool, Bool-cases, Option, arith, false, if◌then◌else◌, inl, inr, ltb, none, refl, some, subst,
  suc, true, zero, ℕ, ◌+◌, ◌-◌, ◌<◌, ◌==◌, ◌∙◌, ◌≡◌, ◌≤◌,
}
use go_flywheel.Base.Int.{pos}
use go_flywheel.Dispatch.{settle_slots, start_all}
use go_flywheel.Pool.{
  Pool, admit, admit_locked, close_idle, end_run, min_ℕ, release, release_some, start, start_run,
}
use go_flywheel.Pool.Steps.{Fine, PoolOk, admit_locked-PoolOk, release_some-Fine}

-- A pool that is well formed, inline or not, and holds and runs this many.
abbrev pub Holding : Bool → ℕ → ℕ → Option Pool → Type 0
Holding inline held runs o =
    (p : Pool) × (o ≡ some p)
    × (p.inline ≡ inline)
    × (p.held ≡ held)
    × (p.running ≡ runs)
    × PoolOk p

-- What a pool that is there holds and runs.
Sizes : Bool → ℕ → ℕ → Option Pool → Type 0
Sizes inline held runs none = Unit
Sizes inline held runs (some q) = (q.inline ≡ inline) × (q.held ≡ held) × (q.running ≡ runs)

close_idle-Sizes : (p : Pool) → Sizes p.inline p.held p.running (close_idle p)
unfolding Sizes
close_idle-Sizes p = elim (Bool-cases p.idle_closed) [
  | inl e ↦ rw e tt
  | inr e ↦ rw e (refl, refl, refl)
]

release_some-Sizes : (k : ℕ) (p : Pool) → Sizes p.inline (p.held - k) p.running (release_some k p)
unfolding Sizes
release_some-Sizes zero p = (refl, omega arith, refl)
release_some-Sizes (suc k) p = rw (more k) (elim (Bool-cases (p.held - suc k == 0)) [
  | inl e ↦ rw e (close_idle-Sizes (record p { held = p.held - suc k; freed = suc p.freed }))
  | inr e ↦ rw e (refl, refl, refl)
])
  where
    more : (n : ℕ) → (suc n == 0) ≡ false
    more n = ground arith

pub release-Holding :
    (k : ℕ) (p : Pool)
    → k ≤ p.held
    → PoolOk p
    → Holding p.inline (p.held - k) p.running (release (pos k) p)
unfolding release Sizes
release-Holding zero p h w = (p, refl, refl, omega arith, refl, w)
release-Holding (suc k) p h w = rw (fits (suc k) p.held h) (kept (release_some-Fine (suc k) p h w))
  where
    fits : (a b : ℕ) → a ≤ b → min_ℕ a b ≡ a
    fits a b t = ground arith

    kept :
        Fine (release_some (suc k) p)
        → Holding p.inline (p.held - suc k) p.running (release_some (suc k) p)
    kept (q, e, v) =
        let size =
          subst (Sizes p.inline (p.held - suc k) p.running) e (release_some-Sizes (suc k) p) in
        (q, e, size.0, size.1, size.2, v)

with_running-PoolOk : (n : ℕ) (p : Pool) → PoolOk p → PoolOk (record p { running = n })
with_running-PoolOk n p w = record {
  some_slot = w.some_slot;
  within = w.within;
  idle_iff = w.idle_iff;
}

-- How many of n started jobs a pool still runs, and holds a slot for, when the last start returns.
abbrev pub in_flight : Bool → ℕ → ℕ
in_flight inline n = if inline then 0 else n

start-Holding :
    (p : Pool)
    → 1 ≤ p.held
    → PoolOk p
    → Holding p.inline
        (p.held - (1 - in_flight p.inline 1))
        (p.running + in_flight p.inline 1)
        (start p)
unfolding start start_run end_run
start-Holding p h w = by_kind p.inline
  where
    by_kind :
        (inline : Bool)
        → Holding p.inline
            (p.held - (1 - in_flight inline 1))
            (p.running + in_flight inline 1)
            (if inline then end_run (start_run p) else some (start_run p))
    by_kind true =
        let (q, e, same, held, runs, v) =
          release-Holding 1 (record p { running = suc p.running - 1 }) h
            (with_running-PoolOk (suc p.running - 1) p w) in
        (q, e, same, held, runs ∙ (omega arith), v)
    by_kind false = (
      record p { running = suc p.running },
      refl,
      refl,
      omega arith,
      omega arith,
      with_running-PoolOk (suc p.running) p w,
    )

pub start_all-Holding :
    (n : ℕ) (p : Pool)
    → n ≤ p.held
    → PoolOk p
    → Holding p.inline
        (p.held - (n - in_flight p.inline n))
        (p.running + in_flight p.inline n)
        (start_all n p)
unfolding start_all
start_all-Holding zero p h w =
    (p, refl, refl, none_held p.held p.inline, none_run p.running p.inline, w)
  where
    none_held : (m : ℕ) (t : Bool) → m ≡ m - (0 - in_flight t 0)
    none_held m t = ground arith

    none_run : (m : ℕ) (t : Bool) → m ≡ m + in_flight t 0
    none_run m t = ground arith
start_all-Holding (suc n) p h w =
    let (q, e, same, held, runs, v) = start-Holding p (omega arith) w in
    let (t, f, same', held', runs', u) =
      start_all-Holding n q (rw held (enough p.held p.inline h)) v in
    rw (start_all, e)
      (
        t,
        f,
        same' ∙ same,
        held' ∙ rw (same, held) (next_held p.held p.inline h),
        runs' ∙ rw (same, runs) (next_run p.running p.inline),
        u,
      )
  where
    enough : (m : ℕ) (t : Bool) → suc n ≤ m → n ≤ m - (1 - in_flight t 1)
    enough m t x = ground arith

    next_held :
        (m : ℕ) (t : Bool)
        → suc n ≤ m
        → m - (1 - in_flight t 1) - (n - in_flight t n) ≡ m - (suc n - in_flight t (suc n))
    next_held m t x = ground arith

    next_run : (m : ℕ) (t : Bool) → m + in_flight t 1 + in_flight t n ≡ m + in_flight t (suc n)
    next_run m t = ground arith

admit-Holding :
    (k : ℕ) (p : Pool)
    → 0 < k
    → PoolOk p
    → Holding p.inline (p.held + k) p.running (some (admit (pos k) p))
unfolding admit admit_locked
admit-Holding zero p h w = absurd (omega arith)
admit-Holding (suc k) p h w =
    (admit_locked (suc k) p, refl, refl, refl, refl, admit_locked-PoolOk (suc k) p h w)

pub settle_slots-Holding :
    (reserved n : ℕ) (p : Pool)
    → reserved ≤ p.held
    → PoolOk p
    → Holding p.inline (p.held - reserved + n) p.running (settle_slots reserved n p)
unfolding settle_slots admit admit_locked
settle_slots-Holding reserved n p h w = elim (Bool-cases (ltb n reserved)) [
  | inl e ↦
      let (q, f, same, held, runs, v) = release-Holding (reserved - n) p (omega arith) w in
      rw e (q, f, same, held ∙ short p.held e h, runs, v)
  | inr e ↦ elim (Bool-cases (ltb reserved n)) [
    | inl k ↦
        let (q, f, same, held, runs, v) = admit-Holding (n - reserved) p (ground arith) w in
        rw (e, k) (q, f, same, held ∙ long p.held k h, runs, v)
    | inr k ↦ rw (e, k) (p, refl, refl, even p.held e k h, refl, w)
  ]
]
  where
    short : (a : ℕ) → ltb n reserved ≡ true → reserved ≤ a → a - (reserved - n) ≡ a - reserved + n
    short a e t = ground arith

    long : (a : ℕ) → ltb reserved n ≡ true → reserved ≤ a → a + (n - reserved) ≡ a - reserved + n
    long a e t = ground arith

    even :
        (a : ℕ)
        → ltb n reserved ≡ false
        → ltb reserved n ≡ false
        → reserved ≤ a
        → a ≡ a - reserved + n
    even a e k t = ground arith
