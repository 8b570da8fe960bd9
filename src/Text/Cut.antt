-- ===== src/Text/Cut.antt =====
-- About truncate of internal/core/driver.go: the part of the text that it keeps.
use go_flywheel.Base.{
  Bool-cases, [], arith, drop, false, inl, inr, leb, length, refl, suc, take, true, zero, ℕ,
  ℕ_discrete, ◌++◌, ◌<◌, ◌∷◌, ◌≡◌, ◌≤◌, ◌⊎◌,
}
use go_flywheel.Text.{byte_at, cut_at, rune_start, truncate}
use go_flywheel.Types.{Bytes}

cut_at-le : (s : Bytes) (n : ℕ) → cut_at s n ≤ n
unfolding cut_at
cut_at-le s zero = omega arith
cut_at-le s (suc n) = ground (arith, cut_at-le s n)

cut_at-boundary :
    (s : Bytes) (n : ℕ) → (cut_at s n ≡ 0) ⊎ (rune_start (byte_at s (cut_at s n)) ≡ true)
unfolding cut_at
cut_at-boundary s zero = inl refl
cut_at-boundary s (suc n) = elim (Bool-cases (rune_start (byte_at s (suc n)))) [
  | inl e ↦ rw e (inr e)
  | inr e ↦ rw e (cut_at-boundary s n)
]

cut_at_maximal : (s : Bytes) (n i : ℕ) → cut_at s n < i → i ≤ n → rune_start (byte_at s i) ≡ false
unfolding cut_at
cut_at_maximal s zero i h k = absurd (omega arith)
cut_at_maximal s (suc n) i h k = elim (Bool-cases (rune_start (byte_at s (suc n)))) [
  | inl e ↦ absurd (let l : suc n < i = rw (← reached e) h in omega arith)
  | inr e ↦ elim (ℕ_discrete i (suc n)) [
    | yes here ↦ rw here e
    | no below ↦ cut_at_maximal s n i (rw (← passed e) h) (omega arith)
  ]
]
  where
    reached : rune_start (byte_at s (suc n)) ≡ true → cut_at s (suc n) ≡ suc n
    reached e = rw e

    passed : rune_start (byte_at s (suc n)) ≡ false → cut_at s (suc n) ≡ cut_at s n
    passed e = rw e

take_prefix : (s : Bytes) (n : ℕ) → take n s ++ drop n s ≡ s
take_prefix s zero = refl
take_prefix [] (suc n) = refl
take_prefix (b ∷ s) (suc n) = rw (take_prefix s n)

length-take-le : (s : Bytes) (n : ℕ) → length (take n s) ≤ n
length-take-le s zero = omega arith
length-take-le [] (suc n) = omega arith
length-take-le (b ∷ s) (suc n) = omega (arith, length-take-le s n)

-- Whatever the text and the limit, `truncate` keeps at most the limit's bytes, and what it keeps is
-- a prefix: the whole text when that fits, and otherwise the text up to the last position at or
-- below the limit where a rune starts (position 0 if there is none).
pub truncate_lem :
    (s : Bytes) (n : ℕ)
    → (length (truncate s n) ≤ n)
      × ((length s ≤ n) × (truncate s n ≡ s)
          ⊎ (n < length s)
            × ((k : ℕ) × (truncate s n ≡ take k s)
                × (k ≤ n)
                × ((k ≡ 0) ⊎ (rune_start (byte_at s k) ≡ true))
                × ((i : ℕ) → k < i → i ≤ n → rune_start (byte_at s i) ≡ false)))
unfolding truncate
truncate_lem s n = elim (Bool-cases (leb (length s) n)) [
  | inl e ↦ rw e (ground arith, inl (ground arith, refl))
  | inr e ↦ rw e (
    omega (arith, length-take-le s (cut_at s n), cut_at-le s n),
    inr (ground arith, (cut_at s n, refl, cut_at-le s n, cut_at-boundary s n, cut_at_maximal s n)),
  )
]
