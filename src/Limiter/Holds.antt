-- ===== src/Limiter/Holds.antt =====
-- About Acquire and Release of internal/core/limiter_db.go: tokens and holds.
use go_flywheel.Base.{
  Bool, Bool-cases, List, String, [], ap, arith, false, find, if◌then◌else◌, inl, inr, ltb, not,
  refl, select, some, str_eq_refl, suc, true, update_where, ℕ, ◌&&◌, ◌++◌, ◌+◌, ◌-◌, ◌<◌, ◌==◌,
  ◌||◌, ◌∙◌, ◌∷◌, ◌≡◌, ◌≤◌, ◌⊎◌,
}
use go_flywheel.Base.Int.{leb_ℤ, pos}
use go_flywheel.Limiter.{
  Bucket, Caps, Grant, Hold, Limiter, LimiterDb, acquire, caps_for, grant_size, held_on,
  hold_lapsed, is_bucket, no_caps, on_resource, persist, plain_grant, reads_bucket, refill,
  refreshed, seed_bucket, spent, sum_n, surviving, take_permits,
}
use go_flywheel.Store.Update.{find-update_where}
use go_flywheel.Types.{OnOk-at, Time, ok}

sum_n-append : (p : Hold → Bool) (hs ks : List Hold) → sum_n p (hs ++ ks) ≡ sum_n p hs + sum_n p ks
sum_n-append p [] ks = omega arith
sum_n-append p (h ∷ hs) ks = ground (arith, sum_n-append p hs ks)

sum_n-select :
    (p q : Hold → Bool) (hs : List Hold) → sum_n p (select q hs) ≡ sum_n (λ h. p h && q h) hs
sum_n-select p q [] = refl
sum_n-select p q (h ∷ hs) = ground (arith, sum_n-select p q hs)

-- What the holds of a resource that have not hold_lapsed hold.
abbrev pub live_on : String → Time → List Hold → ℕ
live_on resource now = sum_n (λ h. on_resource resource h && not (hold_lapsed resource now h))

grant_fits :
    (c : Caps) (tokens held n : ℕ)
    → (grant_size c tokens held n ≤ n)
      × (0 < c.rate → grant_size c tokens held n ≤ tokens)
      × (0 < c.max_concurrent
          → (grant_size c tokens held n ≡ 0)
            ⊎ (held + grant_size c tokens held n ≤ c.max_concurrent))
unfolding grant_size
grant_fits c tokens held n = ground arith

-- An Acquire of a positive ask by a limiter that reads buckets, seen from the bucket it locks.
abbrev pub Admitted : Limiter → Time → LimiterDb → String → ℕ → Bucket → LimiterDb × Grant → Type 0
Admitted l now db resource n b r =
    (r.1.n ≤ n)
    × (0 < (caps_for l b).max_concurrent
        → (held_on resource r.0.holds ≡ live_on resource now db.holds + r.1.n)
          × ((r.1.n ≡ 0) ⊎ (held_on resource r.0.holds ≤ (caps_for l b).max_concurrent)))

held_after :
    (c : Caps) (resource : String) (now : Time) (holds : List Hold)
    → 0 < c.max_concurrent
    → held_on resource (surviving c resource now holds) ≡ live_on resource now holds
unfolding surviving
held_after c resource now holds h = elim (Bool-cases (ltb 0 c.max_concurrent)) [
  | inl e ↦ rw e (sum_n-select (on_resource resource) (λ x. not (hold_lapsed resource now x)) holds)
  | inr e ↦ absurd (ground arith)
]

appended :
    (resource : String) (hs : List Hold) (h : Hold)
    → h.resource ≡ resource
    → held_on resource (hs ++ h ∷ []) ≡ held_on resource hs + h.n
appended resource hs h e =
    rw (sum_n-append (on_resource resource) hs (h ∷ []))
      (rw e (rw (str_eq_refl resource) (omega arith)))

take_permits-Admitted :
    (l : Limiter) (new_id : ℕ → String) (now : Time) (db : LimiterDb) (resource : String)
    (b : Bucket) (n : ℕ)
    → Admitted l now db resource n b (take_permits l new_id now db resource b n)
unfolding take_permits
take_permits-Admitted l new_id now db resource b n =
    let c = caps_for l b in
    let holds = surviving c resource now db.holds in
    let held = if ltb 0 c.max_concurrent then held_on resource holds else 0 in
    let tokens = (refreshed l now b).tokens in
    let granted = grant_size c tokens held n in
    let fits = grant_fits c tokens held n in
    elim (Bool-cases (granted == 0 || c.max_concurrent == 0)) [
      | inl e ↦ rw e (
        fits.0,
        λ h.
            let none_granted = nothing granted c.max_concurrent e h in
            (
              rw none_granted (held_after c resource now db.holds h ∙ (omega arith)),
              inl none_granted,
            ),
      )
      | inr e ↦ rw e (
        fits.0,
        λ h.
            let total = appended resource holds _ refl in
            (
              total ∙ ap (λ m. m + granted) (held_after c resource now db.holds h),
              elim (fits.2 h) [
                | inl z ↦ inl z
                | inr f ↦
                    inr (rw total (capped c.max_concurrent (held_on resource holds) granted h f))
              ],
            ),
      )
    ]
  where
    nothing : (g m : ℕ) → (g == 0 || m == 0) ≡ true → 0 < m → g ≡ 0
    nothing g m e h = ground arith

    capped : (m a g : ℕ) → 0 < m → (if ltb 0 m then a else 0) + g ≤ m → a + g ≤ m
    capped m a g h k = ground arith

pub positive : (n : ℕ) → leb_ℤ (pos (suc n)) (pos 0) ≡ false
positive n = ground arith

-- An Acquire that reads the bucket grants no more than the ask. Under a concurrency cap, the holds of
-- the resource afterwards are those that had not lapsed and the grant; and when anything is granted
-- they are within the cap in force.
pub acquire_within_cap :
    (l : Limiter) (new_id : ℕ → String) (now : Time) (db : LimiterDb) (resource : String) (n : ℕ)
    (b : Bucket) (r : LimiterDb × Grant)
    → reads_bucket l ≡ true
    → find (is_bucket resource) (seed_bucket l now resource db.buckets) ≡ some b
    → acquire l new_id now db resource (pos (suc n)) ≡ ok r
    → Admitted l now db resource (suc n) b r
unfolding acquire
acquire_within_cap l new_id now db resource n b r reads found =
    OnOk-at (Admitted l now db resource (suc n) b) (acquire l new_id now db resource (pos (suc n)))
      r
      (rw (positive n, reads, found)
        (elim (Bool-cases (no_caps (caps_for l b))) [
          | inl e ↦ rw e (omega arith, λ h. absurd (uncapped (caps_for l b) e h))
          | inr e ↦ rw e (
              take_permits-Admitted l new_id now
                (record db { buckets = seed_bucket l now resource db.buckets }) resource b (suc n))
        ]))
  where
    uncapped : (c : Caps) → no_caps c ≡ true → 0 < c.max_concurrent → ⊥
    uncapped c e h = ground arith

-- The bucket after an Acquire under a rate: what it was, refilled and held to the burst in force, less
-- the grant.
abbrev pub Metered : Limiter → Time → String → Bucket → LimiterDb × Grant → Type 0
Metered l now resource b r =
    (b' : Bucket) × (find (is_bucket resource) r.0.buckets ≡ some b')
    × (b'.tokens + r.1.n ≡ (refreshed l now b).tokens)
    × (b'.refilled_at ≡ (refreshed l now b).refilled_at)
    × ((refreshed l now b).tokens ≤ (caps_for l b).burst)

refreshed_burst :
    (l : Limiter) (now : Time) (b : Bucket)
    → 0 < (caps_for l b).rate
    → (refreshed l now b).tokens ≤ (caps_for l b).burst
unfolding refreshed
refreshed_burst l now b h =
    let c = caps_for l b in
    elim (Bool-cases (ltb 0 c.rate && ltb c.burst (refill l b now).tokens)) [
      | inl e ↦ rw e (omega arith)
      | inr e ↦ rw e (under c.rate c.burst (refill l b now).tokens h e)
    ]
  where
    under : (r m t : ℕ) → 0 < r → (ltb 0 r && ltb m t) ≡ false → t ≤ m
    under r m t h e = ground arith

take_permits-Metered :
    (l : Limiter) (new_id : ℕ → String) (now : Time) (db : LimiterDb) (resource : String)
    (b : Bucket) (n : ℕ)
    → 0 < (caps_for l b).rate
    → find (is_bucket resource) db.buckets ≡ some b
    → Metered l now resource b (take_permits l new_id now db resource b n)
unfolding take_permits persist
take_permits-Metered l new_id now db resource b n h found =
    let c = caps_for l b in
    let holds = surviving c resource now db.holds in
    let held = if ltb 0 c.max_concurrent then held_on resource holds else 0 in
    let r = refreshed l now b in
    let granted = grant_size c r.tokens held n in
    let write : Bucket → Bucket = λ x. record x {
      tokens = spent c r.tokens granted;
      refilled_at = r.refilled_at;
      updated_at = now;
    } in
    let after : Metered l now resource b (
        (
          record db { buckets = update_where (is_bucket resource) write db.buckets },
          plain_grant resource granted,
        )) =
      (
        write b,
        find-update_where (is_bucket resource) write (λ x t. t) db.buckets b found,
        paid c.rate r.tokens granted h ((grant_fits c r.tokens held n).1 h),
        refl,
        refreshed_burst l now b h,
      ) in
    elim (Bool-cases (granted == 0 || c.max_concurrent == 0)) [
      | inl e ↦ rw e after
      | inr e ↦ rw e after
    ]
  where
    paid : (r t g : ℕ) → 0 < r → g ≤ t → (if ltb 0 r then t - g else t) + g ≡ t
    paid r t g h k = ground arith

-- Under a rate, an Acquire that reads the bucket takes its grant out of the refilled tokens, which
-- are at most the burst in force, and stores what is left with the refill's instant.
pub acquire_spends_tokens :
    (l : Limiter) (new_id : ℕ → String) (now : Time) (db : LimiterDb) (resource : String) (n : ℕ)
    (b : Bucket) (r : LimiterDb × Grant)
    → reads_bucket l ≡ true
    → find (is_bucket resource) (seed_bucket l now resource db.buckets) ≡ some b
    → 0 < (caps_for l b).rate
    → acquire l new_id now db resource (pos (suc n)) ≡ ok r
    → Metered l now resource b r
unfolding acquire
acquire_spends_tokens l new_id now db resource n b r reads found h =
    OnOk-at (Metered l now resource b) (acquire l new_id now db resource (pos (suc n))) r (
      rw (positive n, reads, found)
        (rw (rated (caps_for l b) h) (
          take_permits-Metered l new_id now
            (record db { buckets = seed_bucket l now resource db.buckets }) resource b (suc n) h
            found)))
  where
    rated : (c : Caps) → 0 < c.rate → no_caps c ≡ false
    rated c h = ground arith
