-- ===== src/Limiter/Refill.antt =====
-- About refill and retryAfter of internal/core/limiter_db.go.
use native.Mathlib.Nat.{
  add-mul, div-mul-le_self, le_of_mul-le-mul_right, lt-div-mul-add, mul-le-mul_right, mul_comm,
  mul-sub,
}
use go_flywheel.Base.{
  Bool-cases, arith, false, inl, inr, leb, min, refl, subst, true, ℕ, ◌*◌, ◌+◌, ◌-◌, ◌/◌, ◌<◌, ◌==◌,
  ◌^◌, ◌||◌, ◌∙◌, ◌≡◌, ◌≤◌, ◌⊎◌,
}
use go_flywheel.Base.Int.{leb_ℤ, pos, pos_part}
use go_flywheel.Limiter.{Bucket, Caps, Limiter, accrue, caps_for, cost, earned, refill, wrap64}
use go_flywheel.Types.{Time}

-- What a bucket has at an instant, in tokens times nanoseconds: its tokens, and what the span since
-- its refill has earned.
abbrev pub credit : ℕ → ℕ → Time → Bucket → ℕ
credit rate interval now b = b.tokens * interval + (now - b.refilled_at) * rate

minus_mul : (a b k : ℕ) → (a - b) * k ≡ a * k - b * k
minus_mul a b k = mul_comm (a - b) k ∙ (mul-sub k a b ∙ (rw (mul_comm k a, mul_comm k b) refl))

-- A product below 2 ^ 63 does not wrap.
wrap64_small : (n : ℕ) → n < 2 ^ 63 → wrap64 n ≡ pos n
wrap64_small n h = ground arith

cost_small :
    (tokens rate interval : ℕ)
    → tokens * interval < 2 ^ 63
    → cost tokens rate interval ≡ pos (tokens * interval / rate)
unfolding cost
cost_small tokens rate interval h = rw (wrap64_small (tokens * interval) h) refl

earned_small :
    (span rate interval : ℕ)
    → span * rate < 2 ^ 63
    → earned span rate interval ≡ pos (span * rate / interval)
unfolding earned
earned_small span rate interval h = rw (wrap64_small (span * rate) h) refl

-- Without wrap-around: the whole tokens of a span, and the span that they cost.
abbrev whole : ℕ → ℕ → ℕ → ℕ
whole span rate interval = span * rate / interval

abbrev price : ℕ → ℕ → ℕ → ℕ
price tokens rate interval = tokens * interval / rate

price_fits : (e r i : ℕ) → 0 < r → price (whole e r i) r i ≤ e
price_fits e r i h =
    le_of_mul-le-mul_right
      (omega (arith, div-mul-le_self (e * r) i, div-mul-le_self (whole e r i * i) r)) h

accrued_credit :
    (t e r i : ℕ)
    → 0 < r
    → 0 < i
    → (t * i + e * r ≤ (t + whole e r i) * i + (e - price (whole e r i) r i) * r)
      × ((t + whole e r i) * i + (e - price (whole e r i) r i) * r < t * i + e * r + r)
      × ((e - price (whole e r i) r i) * r < i + r)
accrued_credit t e r i h k =
    let a = whole e r i in
    let s = price a r i in
    let fits = mul-le-mul_right {m = s} {n = e} r (price_fits e r i h) in
    let below = div-mul-le_self (a * i) r in
    let above = lt-div-mul-add {a = a * i} {b = r} h in
    let rest = lt-div-mul-add {a = e * r} {b = i} k in
    rw (add-mul t a i, minus_mul e s r) (omega arith, omega arith, omega arith)

-- How a refill leaves a bucket: full as of now, which its credit covers but for less than a
-- nanosecond's worth of the rate; or with nothing of its credit lost and less than a nanosecond's
-- worth more, of which less than a token and a nanosecond's worth is not yet in its tokens.
abbrev pub Refilled : Caps → ℕ → Time → Bucket → Bucket → Type 0
Refilled c interval now b b' =
    (b'.tokens ≡ c.burst)
      × (b'.refilled_at ≡ now)
      × (c.burst * interval < credit c.rate interval now b + c.rate)
    ⊎ (credit c.rate interval now b ≤ credit c.rate interval now b')
      × (credit c.rate interval now b' < credit c.rate interval now b + c.rate)
      × ((now - b'.refilled_at) * c.rate < interval + c.rate)

-- The guard on the time to fill the bucket bounds the product under it: a span that does not fill
-- the bucket from empty earns, before the division, less than the burst times the interval.
guarded_product :
    (burst rate interval span : ℕ)
    → 0 < rate
    → leb_ℤ (pos (price burst rate interval)) (pos span) ≡ false
    → span * rate < burst * interval
guarded_product burst rate interval span h e =
    let below = div-mul-le_self (burst * interval) rate in
    let less =
      mul-le-mul_right {m = span + 1} {n = price burst rate interval} rate (ground arith) in
    omega (arith, add-mul span 1 rate)

-- A span of the time to fill the bucket, or more, earns the burst but for less than the rate.
full_span :
    (burst rate interval span : ℕ)
    → 0 < rate
    → leb_ℤ (pos (price burst rate interval)) (pos span) ≡ true
    → burst * interval < span * rate + rate
full_span burst rate interval span h e =
    let above = lt-div-mul-add {a = burst * interval} {b = rate} h in
    let less = mul-le-mul_right {m = price burst rate interval} {n = span} rate (ground arith) in
    omega arith

-- Tokens that reach the burst with the whole tokens of a span are covered by the credit.
full_credit : (burst t e r i : ℕ) → burst ≤ t + whole e r i → burst * i ≤ t * i + e * r
full_credit burst t e r i h =
    let below = div-mul-le_self (e * r) i in
    let more = mul-le-mul_right {m = burst} {n = t + whole e r i} i h in
    omega (arith, add-mul t (whole e r i) i)

-- A span that earns no whole token.
no_token : (e r i : ℕ) → 0 < i → leb_ℤ (pos (whole e r i)) (pos 0) ≡ true → e * r < i
no_token e r i k h =
    let rest = lt-div-mul-add {a = e * r} {b = i} k in
    let none_whole : whole e r i ≡ 0 = ground arith in rest_of rest none_whole
  where
    rest_of : e * r < whole e r i * i + i → whole e r i ≡ 0 → e * r < i
    rest_of x y = omega (arith, subst (λ w. e * r < w * i + i) y x)

accrue-Refilled :
    (c : Caps) (i : ℕ) (now : Time) (b : Bucket)
    → 0 < c.rate
    → 0 < i
    → (now - b.refilled_at) * c.rate < 2 ^ 63
    → Refilled c i now b (accrue c i now b)
unfolding accrue
accrue-Refilled c i now b h k small =
    let e = now - b.refilled_at in
    let a = whole e c.rate i in
    rw (earned_small e c.rate i small) (elim (Bool-cases (leb_ℤ (pos a) (pos 0))) [
      | inl z ↦ rw z (inr (omega arith, omega arith, omega (arith, no_token e c.rate i k z)))
      | inr z ↦ elim (Bool-cases (leb c.burst (min c.burst (b.tokens + a)))) [
        | inl f ↦
            rw (z, f)
              (inl (
                full c.burst (b.tokens + a) f,
                refl,
                omega (
                  arith,
                  full_credit c.burst b.tokens e c.rate i (reached c.burst (b.tokens + a) f),
                ),
              ))
        | inr f ↦
            rw
              (
                z,
                f,
                cost_small a c.rate i (omega (arith, div-mul-le_self (e * c.rate) i)),
                short c.burst (b.tokens + a) f,
                later now b.refilled_at (price a c.rate i),
              )
              (inr (accrued_credit b.tokens e c.rate i h k))
      ]
    ])
  where
    full : (m n : ℕ) → leb m (min m n) ≡ true → min m n ≡ m
    full m n e = ground arith

    reached : (m n : ℕ) → leb m (min m n) ≡ true → m ≤ n
    reached m n e = ground arith

    short : (m n : ℕ) → leb m (min m n) ≡ false → min m n ≡ n
    short m n e = ground arith

    later : (m n p : ℕ) → m - (n + p - 0) ≡ m - n - p
    later m n p = omega arith

-- Where the burst in force times the interval fits an int64, and both the rate and the interval are
-- positive, a refill fills the bucket as of now only if its credit (its tokens times the interval,
-- and the span since its last refill times the rate) lacks less than a nanosecond's worth of the
-- rate; otherwise it loses no credit, gains less than a nanosecond's worth, and leaves less than a
-- token and a nanosecond's worth outside the tokens.
pub refill_credit :
    (l : Limiter) (b : Bucket) (now : Time)
    → 0 < (caps_for l b).rate
    → 0 < pos_part l.interval
    → (caps_for l b).burst * pos_part l.interval < 2 ^ 63
    → Refilled (caps_for l b) (pos_part l.interval) now b (refill l b now)
unfolding refill
refill_credit l b now h k fits =
    let c = caps_for l b in
    let i = pos_part l.interval in
    let e = now - b.refilled_at in
    elim (Bool-cases (c.rate == 0 || leb now b.refilled_at)) [
      | inl z ↦ rw z (inr (omega arith, omega arith, early c.rate i now b.refilled_at h k z))
      | inr z ↦
          rw (z, cost_small c.burst c.rate i fits)
            (elim (Bool-cases (leb_ℤ (pos (price c.burst c.rate i)) (pos e))) [
              | inl f ↦ rw f (inl (refl, refl, omega (arith, full_span c.burst c.rate i e h f)))
              | inr f ↦ rw f (
                  accrue-Refilled c i now b h k
                    (omega (arith, guarded_product c.burst c.rate i e h f)))
            ])
    ]
  where
    early : (r i m n : ℕ) → 0 < r → 0 < i → (r == 0 || leb m n) ≡ true → (m - n) * r < i + r
    early r i m n h k z = let past : m - n ≡ 0 = ground arith in rw past (omega arith)
