-- ===== src/Schedule/Missed.antt =====
-- About intervalBuckets of internal/core/scheduler.go: the instants it answers with.
use native.Mathlib.Nat.{div-add-mod', mod-lt, suc-mul}
use go_flywheel.Base.{
  Bool-cases, List, [], ap, arith, false, inl, inr, length, ltb, refl, subst, suc, sym, true, zero,
  ℕ, ◌&&◌, ◌*◌, ◌+◌, ◌-◌, ◌/◌, ◌<◌, ◌==◌, ◌||◌, ◌∙◌, ◌∷◌, ◌≡◌, ◌≤◌, ◌⊎◌,
}
use go_flywheel.Base.Int.{negsuc, pos, ℤ, ◌≤ℤ◌}
use go_flywheel.Schedule.{bucket_times, first_kept, interval_buckets, interval_of}
use go_flywheel.Types.{Time}

abbrev pub head_or : Time → List Time → Time
head_or next [] = next
head_or next (t ∷ ts) = t

-- Instants one interval apart, the last of them one interval before `next`.
pub Chain : ℕ → Time → List Time → Type 0
Chain interval next [] = Unit
Chain interval next (t ∷ ts) = (t + interval ≡ head_or next ts) × Chain interval next ts

length-bucket_times : (start interval k n : ℕ) → length (bucket_times start interval k n) ≡ n
unfolding bucket_times
length-bucket_times start interval k zero = refl
length-bucket_times start interval k (suc n) = rw (length-bucket_times start interval (suc k) n)

head-bucket_times :
    (start interval k n : ℕ)
    → head_or (start + (k + n) * interval) (bucket_times start interval k n) ≡ start + k * interval
unfolding bucket_times
head-bucket_times start interval k zero = let e : k + 0 ≡ k = omega arith in rw e refl
head-bucket_times start interval k (suc n) = refl

bucket_times-Chain :
    (start interval k n : ℕ)
    → Chain interval (start + (k + n) * interval) (bucket_times start interval k n)
unfolding bucket_times Chain
bucket_times-Chain start interval k zero = tt
bucket_times-Chain start interval k (suc n) =
    subst
      (λ t.
        Chain interval (start + t * interval)
          ((start + k * interval) ∷ bucket_times start interval (suc k) n))
      (omega arith)
      (
        step ∙ sym (head-bucket_times start interval (suc k) n),
        bucket_times-Chain start interval (suc k) n,
      )
  where
    step : start + k * interval + interval ≡ start + suc k * interval
    step = let m = suc-mul k interval in omega arith

-- The quotient's bounds: n intervals fit between start and now, and n + 1 do not.
quotient_fits :
    (start now interval : ℕ)
    → 0 < interval
    → start ≤ now
    → let n = (now - start) / interval in
      (start + n * interval ≤ now)
      × (now < start + (n + 1) * interval)
      × (start + (n + 1) * interval ≤ now + interval)
quotient_fits start now interval h k =
    let d = div-add-mod' (now - start) interval in
    let m = mod-lt (now - start) h in
    let s = suc-mul ((now - start) / interval) interval in
    (
      omega arith,
      rw (by_one ((now - start) / interval)) (omega arith),
      rw (by_one ((now - start) / interval)) (omega arith),
    )
  where
    by_one : (n : ℕ) → n + 1 ≡ suc n
    by_one n = omega arith

-- A limit keeps the last fires, and all of them where it is not positive or is not reached.
kept_lem :
    (limit : ℤ) (n : ℕ)
    → (first_kept limit n ≤ n)
      × ((first_kept limit n ≡ 0) × ((limit ≤ℤ pos 0) ⊎ (pos (n + 1) ≤ℤ limit))
          ⊎ (pos (n + 1 - first_kept limit n) ≡ limit))
kept_lem (pos l) n = elim (Bool-cases (ltb 0 l && ltb l (n + 1))) [
  | inl e ↦ rw e (below l n e, inr (ap pos (exact l n e)))
  | inr e ↦ rw e (omega arith, inl (refl, all_kept l n e))
]
  where
    below : (l n : ℕ) → (ltb 0 l && ltb l (n + 1)) ≡ true → n + 1 - l ≤ n
    below l n e = ground arith

    exact : (l n : ℕ) → (ltb 0 l && ltb l (n + 1)) ≡ true → n + 1 - (n + 1 - l) ≡ l
    exact l n e = ground arith

    all_kept :
        (l n : ℕ) → (ltb 0 l && ltb l (n + 1)) ≡ false → (pos l ≤ℤ pos 0) ⊎ (pos (n + 1) ≤ℤ pos l)
    all_kept l n e = ground arith
kept_lem (negsuc l) n = (omega arith, inl (refl, inl (omega arith)))

module _ (start now : Time) (seconds limit : ℤ) (due : start ≤ now)
    (valid : 0 < interval_of seconds) where
  -- For a valid interval and a start that is due, the buckets are instants one interval apart, the
  -- last of them one interval before the next run, and there is at least one; the next run is the
  -- first after now; and the buckets either begin at the start, with no positive limit or within
  -- it, or are as many as the limit.
  pub interval_buckets_lem :
      let (missed, next_run) = interval_buckets start seconds now limit in
      Chain (interval_of seconds) next_run missed
      × (now < next_run)
      × (next_run ≤ now + interval_of seconds)
      × (0 < length missed)
      × ((head_or next_run missed ≡ start) × ((limit ≤ℤ pos 0) ⊎ (pos (length missed) ≤ℤ limit))
          ⊎ (pos (length missed) ≡ limit))
  unfolding interval_buckets
  interval_buckets_lem = rw (late (interval_of seconds) valid) (
      let (low, high, near) = quotient_fits start now interval valid due in
      let (f_le, kinds) = kept_lem limit n in
      let len = length-bucket_times start interval f (n + 1 - f) in
      let rest : f + (n + 1 - f) ≡ n + 1 = omega arith in
      (
        subst
            (λ t. Chain interval (start + t * interval) (bucket_times start interval f (n + 1 - f)))
            rest (bucket_times-Chain start interval f (n + 1 - f)),
        high,
        near,
        rw len (omega arith),
        elim kinds [
          | inl a ↦ inl (
            subst
                  (λ t.
                    head_or (start + t * interval) (bucket_times start interval f (n + 1 - f))
                    ≡ start + f * interval)
                  rest (head-bucket_times start interval f (n + 1 - f))
                ∙ (rw (a.0) (omega arith)),
            elim (a.1) [
              | inl none_asked ↦ inl none_asked
              | inr b ↦ inr (let z = a.0 in omega arith)
            ],
          )
          | inr b ↦ inr (ap pos len ∙ b)
        ],
      ))
    where
      interval : ℕ
      interval = interval_of seconds

      n : ℕ
      n = (now - start) / interval

      f : ℕ
      f = first_kept limit n

      late : (i : ℕ) → 0 < i → (i == 0 || ltb now start) ≡ false
      late i h = ground arith
