-- ===== src/Examples/Hists.antt =====
-- The histogram's theorems at concrete inputs, with a JSON printer for lists of pairs.
use go_flywheel.Base.{
  All, Bool-cases, List, [], ap, arith, false, if◌then◌else◌, inl, inr, length, ltb, refl, suc,
  true, zero, ℕ, ◌%◌, ◌*◌, ◌++◌, ◌+◌, ◌-◌, ◌/◌, ◌<◌, ◌∙◌, ◌∷◌, ◌≡◌, ◌≤◌,
}
use go_flywheel.Stats.Hist.{Histogram, is_digit, marshal, parse_sparse_hist, parsed}
use go_flywheel.Stats.Hist.RoundTrip.{JsonLaws, accumulate, pairs_text, parse-marshal}
use go_flywheel.Types.{Bytes}

abbrev digits_from : ℕ → ℕ → Bytes
digits_from zero n = (48 + n % 10) ∷ []
digits_from (suc fuel) n =
    let rest = digits_from fuel (n / 10) in
    if ltb n 10 then (48 + n) ∷ [] else rest ++ (48 + n % 10) ∷ []

abbrev digits : ℕ → Bytes
digits n = digits_from n n

accumulate-last :
    (n : ℕ) (ds : Bytes) (d : ℕ) → accumulate n (ds ++ d ∷ []) ≡ accumulate n ds * 10 + (d - 48)
accumulate-last n [] d = refl
accumulate-last n (e ∷ ds) d = accumulate-last (n * 10 + (e - 48)) ds d

digits_from-decimal : (fuel n : ℕ) → n ≤ fuel → accumulate 0 (digits_from fuel n) ≡ n
digits_from-decimal zero n h = omega arith
digits_from-decimal (suc fuel) n h = elim (Bool-cases (ltb n 10)) [
  | inl e ↦ rw e (omega arith)
  | inr e ↦ rw e (
      accumulate-last 0 (digits_from fuel (n / 10)) (48 + n % 10)
      ∙ (ap (λ m. m * 10 + (48 + n % 10 - 48))
            (digits_from-decimal fuel (n / 10) (smaller n fuel e h))
          ∙ (omega arith)))
]
  where
    smaller : (m f : ℕ) → ltb m 10 ≡ false → m ≤ suc f → m / 10 ≤ f
    smaller m f e k = ground arith

All-last :
    (ds : Bytes) (d : ℕ)
    → All (λ c. is_digit c ≡ true) ds
    → is_digit d ≡ true
    → All (λ c. is_digit c ≡ true) (ds ++ d ∷ [])
All-last [] d a h = (h, tt)
All-last (e ∷ ds) d a h = (a.0, All-last ds d a.1 h)

digit_of : (n : ℕ) → n < 10 → is_digit (48 + n) ≡ true
digit_of n h = ground arith

digits_from-digits : (fuel n : ℕ) → All (λ c. is_digit c ≡ true) (digits_from fuel n)
digits_from-digits zero n = (digit_of (n % 10) (omega arith), tt)
digits_from-digits (suc fuel) n = elim (Bool-cases (ltb n 10)) [
  | inl e ↦ rw e (digit_of n (ground arith), tt)
  | inr e ↦ rw e (
      All-last (digits_from fuel (n / 10)) (48 + n % 10) (digits_from-digits fuel (n / 10))
        (digit_of (n % 10) (omega arith)))
]

last_counts : (ds : Bytes) (d : ℕ) → 0 < length (ds ++ d ∷ [])
last_counts [] d = omega arith
last_counts (e ∷ ds) d = omega arith

digits_from-not_empty : (fuel n : ℕ) → 0 < length (digits_from fuel n)
digits_from-not_empty zero n = omega arith
digits_from-not_empty (suc fuel) n = elim (Bool-cases (ltb n 10)) [
  | inl e ↦ rw e (omega arith)
  | inr e ↦ rw e (last_counts (digits_from fuel (n / 10)) (48 + n % 10))
]

json-JsonLaws : JsonLaws (pairs_text digits) digits
json-JsonLaws = record {
  compact = λ ps. refl;
  decimal = λ n. digits_from-decimal n n (omega arith);
  only_digits = λ n. digits_from-digits n n;
  not_empty = λ n. digits_from-not_empty n n;
}

abbrev bounds : List ℕ
bounds = 1 ∷ 2 ∷ 4 ∷ []

abbrev counts : Histogram
counts = 3 ∷ 0 ∷ 12 ∷ 0 ∷ []

parse-marshal_example :
    parse_sparse_hist bounds (marshal (pairs_text digits) counts) ≡ parsed counts
parse-marshal_example =
    parse-marshal (pairs_text digits) digits json-JsonLaws bounds counts refl (omega arith)
      (omega arith, (omega arith, (omega arith, (omega arith, tt))))

-- A pair with no numbers in it counts the numbers of the pair before it again.
stale_pair :
    parse_sparse_hist bounds (91 ∷ 91 ∷ 50 ∷ 44 ∷ 55 ∷ 93 ∷ 44 ∷ 91 ∷ 44 ∷ 93 ∷ 93 ∷ [])
    ≡ parsed (0 ∷ 0 ∷ 14 ∷ 0 ∷ [])
unfolding parse_sparse_hist go_flywheel.Stats.Hist.scan_byte
stale_pair = refl
