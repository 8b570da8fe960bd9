-- ===== src/Limiter/Config.antt =====
-- About NewDBLimiter and capsFor of internal/core/limiter_db.go.
use go_flywheel.Base.{
  Bool, Option, ap, arith, false, if◌then◌else◌, ltb, none, refl, some, sym, true, ℕ, ◌&&◌, ◌<◌,
  ◌||◌, ◌≡◌,
}
use go_flywheel.Base.Int.{leb_ℤ, ltb_ℤ, pos, pos_part, ℤ}
use go_flywheel.Limiter.{
  Bucket, Limiter, LimiterConfig, burst_for, caps_for, new_db_limiter, override, refused_config,
}

-- The caps that an Acquire can apply: a rate with an interval to refill against and a burst to fill,
-- and a concurrency cap with a span that bounds its holds.
abbrev pub Sound : Limiter → Bucket → Type 0
Sound l b =
    (0 < (caps_for l b).rate → (ltb_ℤ (pos 0) l.interval ≡ true) × (0 < (caps_for l b).burst))
    × (0 < (caps_for l b).max_concurrent → ltb_ℤ (pos 0) l.hold_ttl ≡ true)

abbrev pub positive_override : Option ℕ → Bool
positive_override none = true
positive_override (some n) = ltb 0 n

accepted :
    (c : Bool) (x l : Limiter) → (if c then none else some x) ≡ some l → (c ≡ false) × (l ≡ x)
accepted true x l e = cc
accepted false x l e = (refl, sym (ap (λ o. elim o as (λ _. Limiter) [ none ↦ l | some y ↦ y ]) e))

rate_sound :
    (o : Option ℕ) (rate interval : ℤ)
    → (ltb_ℤ (pos 0) rate && leb_ℤ interval (pos 0)) ≡ false
    → 0 < override o (ltb_ℤ (pos 0) interval) (pos_part rate)
    → ltb_ℤ (pos 0) interval ≡ true
rate_sound none rate interval e h = ground arith
rate_sound (some n) rate interval e h = ground arith

burst_sound :
    (o : Option ℕ) (configured rate : ℕ)
    → positive_override o ≡ true
    → 0 < rate
    → 0 < burst_for o configured rate
burst_sound none configured rate v h = ground arith
burst_sound (some n) configured rate v h = ground arith

split_refusals : (a b c : Bool) → (a || b || c) ≡ false → (b ≡ false) × (c ≡ false)
split_refusals a b c h = ground arith

-- A limiter that NewDBLimiter returns applies, whatever overrides a bucket has, its burst's being 1
-- or more, a rate only with a positive interval and a positive burst, and a concurrency cap only with
-- a positive span for its holds.
pub caps_for-Sound :
    (cfg : LimiterConfig) (l : Limiter) (b : Bucket)
    → new_db_limiter cfg ≡ some l
    → positive_override b.burst_override ≡ true
    → Sound l b
unfolding new_db_limiter caps_for
caps_for-Sound cfg l b e v =
    let (fine, same) = accepted (refused_config cfg) _ l e in
    let (rates, holds) = split_refusals _ _ _ fine in
    rw same (
      (λ h. (
        rate_sound b.rate_override cfg.rate cfg.interval rates h,
        burst_sound b.burst_override _ _ v h,
      )),
      rate_sound b.max_concurrent_override cfg.max_concurrent cfg.hold_ttl holds,
    )
