-- ===== src/Stats/Hist/RoundTrip.antt =====
-- About marshal and parseSparseHist of internal/core/stats_hist.go.
use mathlib.Core.List.{append_assoc}
use go_flywheel.Base.{
  All, Bool-cases, List, [], ap, arith, false, inl, inr, leb, length, map, refl, subst, suc, sym,
  true, zero, ℕ, ◌%◌, ◌*◌, ◌++◌, ◌+◌, ◌-◌, ◌<◌, ◌==◌, ◌∙◌, ◌∷◌, ◌≡◌, ◌≤◌,
}
use go_flywheel.Stats.Hist.{
  Histogram, Parse, Scan, add_at, close_pair, end_number, finish, is_digit, marshal, new_histogram,
  pairs_from, panicked, parse_sparse_hist, parsed, refused, scan, scan_byte, scan_start, structure,
  two_63, two_64, zeros, ◌>=>◌,
}
use go_flywheel.Types.{Bytes}

-- What a run of digits adds to a number.
abbrev pub accumulate : ℕ → Bytes → ℕ
accumulate n [] = n
accumulate n (d ∷ ds) = accumulate (n * 10 + (d - 48)) ds

-- The text of one pair, of the pairs behind it, and of them all.
abbrev pub pair_text : (ℕ → Bytes) → ℕ × ℕ → Bytes
pair_text digits (i, n) = 91 ∷ (digits i ++ (44 ∷ (digits n ++ (93 ∷ []))))

abbrev pub tail_text : (ℕ → Bytes) → List (ℕ × ℕ) → Bytes
tail_text digits [] = 93 ∷ []
tail_text digits (p ∷ ps) = 44 ∷ (pair_text digits p ++ tail_text digits ps)

abbrev pub pairs_text : (ℕ → Bytes) → List (ℕ × ℕ) → Bytes
pairs_text digits [] = 91 ∷ 93 ∷ []
pairs_text digits (p ∷ ps) = 91 ∷ (pair_text digits p ++ tail_text digits ps)

-- What json.Marshal documents for a slice of pairs of integers that are not negative: compact arrays
-- of decimal numbers.
pub record JsonLaws (json : List (ℕ × ℕ) → Bytes) (digits : ℕ → Bytes) : Type 0 where
  pub compact : (ps : List (ℕ × ℕ)) → json ps ≡ pairs_text digits ps
  pub decimal : (n : ℕ) → accumulate 0 (digits n) ≡ n
  pub only_digits : (n : ℕ) → All (λ d. is_digit d ≡ true) (digits n)
  pub not_empty : (n : ℕ) → 0 < length (digits n)

scan-append : (s : Scan) (xs ys : Bytes) → scan s (xs ++ ys) ≡ (scan s xs >=> (λ s'. scan s' ys))
unfolding scan
scan-append s [] ys = refl
scan-append s (x ∷ xs) ys = go (scan_byte s x) (λ s'. scan-append s' xs ys)
  where
    go :
        (r : Parse Scan)
        → ((s' : Scan) → scan s' (xs ++ ys) ≡ (scan s' xs >=> (λ t. scan t ys)))
        → (r >=> (λ s'. scan s' (xs ++ ys))) ≡ (r >=> (λ s'. scan s' xs) >=> (λ s'. scan s' ys))
    go (parsed s') k = k s'
    go (refused e) k = refl
    go panicked k = refl

accumulate-grows : (n : ℕ) (ds : Bytes) → n ≤ accumulate n ds
accumulate-grows n [] = omega arith
accumulate-grows n (d ∷ ds) = omega (arith, accumulate-grows (n * 10 + (d - 48)) ds)

scan_digits :
    (s : Scan) (d : ℕ) (ds : Bytes)
    → All (λ c. is_digit c ≡ true) (d ∷ ds)
    → accumulate s.num (d ∷ ds) < two_64
    → scan s (d ∷ ds) ≡ parsed (record s { num = accumulate s.num (d ∷ ds); in_num = true })
unfolding scan scan_byte
scan_digits s d [] a h = rw (a.0, small (s.num * 10 + (d - 48)) h) refl
  where
    small : (n : ℕ) → n < two_64 → n % two_64 ≡ n
    small n k = omega arith
scan_digits s d (e ∷ ds) a h =
    rw
      (
        a.0,
        small (s.num * 10 + (d - 48))
            (omega (arith, accumulate-grows (s.num * 10 + (d - 48)) (e ∷ ds))),
      )
      (scan_digits (record s { num = s.num * 10 + (d - 48); in_num = true }) e ds a.1 h)
  where
    small : (n : ℕ) → n < two_64 → n % two_64 ≡ n
    small n k = omega arith

-- The pairs, added one after the other.
abbrev pub add_all : List (ℕ × ℕ) → Histogram → Histogram
add_all [] h = h
add_all (p ∷ ps) h = add_all ps (add_at p.0 p.1 h)

length-add_at : (i n : ℕ) (h : Histogram) → length (add_at i n h) ≡ length h
length-add_at i n [] = refl
length-add_at zero n (c ∷ cs) = refl
length-add_at (suc i) n (c ∷ cs) = ap suc (length-add_at i n cs)

length-zeros : (n : ℕ) → length (zeros n) ≡ n
length-zeros zero = refl
length-zeros (suc n) = ap suc (length-zeros n)

abbrev next_bucket : ℕ × ℕ → ℕ × ℕ
next_bucket (i, n) = (suc i, n)

pairs_from-next : (i : ℕ) (h : Histogram) → pairs_from (suc i) h ≡ map next_bucket (pairs_from i h)
unfolding pairs_from
pairs_from-next i [] = refl
pairs_from-next i (c ∷ cs) = elim (Bool-cases (c == 0)) [
  | inl z ↦ rw z (pairs_from-next (suc i) cs)
  | inr z ↦ rw z (ap (λ r. (suc i, c) ∷ r) (pairs_from-next (suc i) cs))
]

add_all-next :
    (ps : List (ℕ × ℕ)) (c : ℕ) (cs : Histogram)
    → add_all (map next_bucket ps) (c ∷ cs) ≡ c ∷ add_all ps cs
add_all-next [] c cs = refl
add_all-next ((i, n) ∷ ps) c cs = add_all-next ps c (add_at i n cs)

-- The sparse pairs of a histogram, added to empty buckets, are the histogram.
sparse : (h : Histogram) → add_all (pairs_from 0 h) (zeros (length h)) ≡ h
unfolding pairs_from
sparse [] = refl
sparse (c ∷ cs) = elim (Bool-cases (c == 0)) [
  | inl z ↦ rw z (behind 0 ∙ joined 0 (sym (zero_of c z)) (sparse cs))
  | inr z ↦ rw z (behind (0 + c) ∙ joined (0 + c) (omega arith) (sparse cs))
]
  where
    zero_of : (n : ℕ) → (n == 0) ≡ true → n ≡ 0
    zero_of n e = ground arith

    behind :
        (n : ℕ)
        → add_all (pairs_from 1 cs) (n ∷ zeros (length cs))
          ≡ n ∷ add_all (pairs_from 0 cs) (zeros (length cs))
    behind n =
        ap (λ ps. add_all ps (n ∷ zeros (length cs))) (pairs_from-next 0 cs)
        ∙ add_all-next (pairs_from 0 cs) n (zeros (length cs))

    joined : (n : ℕ) {xs : Histogram} → n ≡ c → xs ≡ cs → (n ∷ xs) ≡ (c ∷ cs)
    joined n {xs} e k = ap (λ r. n ∷ r) k ∙ ap (λ m. m ∷ cs) e

module _ (json : List (ℕ × ℕ) → Bytes) (digits : ℕ → Bytes) (laws : JsonLaws json digits) where
  scan_number :
      (s : Scan) (n : ℕ) (rest : Bytes)
      → s.num ≡ 0
      → n < two_64
      → scan s (digits n ++ rest) ≡ scan (record s { num = n; in_num = true }) rest
  scan_number s n rest z h =
      scan-append s (digits n) rest
      ∙ (ap (λ r. r >=> (λ s'. scan s' rest))
          (run (digits n) (laws.only_digits n) (laws.decimal n) (laws.not_empty n)))
    where
      run :
          (ds : Bytes)
          → All (λ c. is_digit c ≡ true) ds
          → accumulate 0 ds ≡ n
          → 0 < length ds
          → scan s ds ≡ parsed (record s { num = n; in_num = true })
      run [] a e k = absurd (omega arith)
      run (d ∷ ds) a e k =
          let value : accumulate s.num (d ∷ ds) ≡ n = rw z e in
          scan_digits s d ds a (rw value h)
          ∙ ap (λ m. parsed (record s { num = m; in_num = true })) value

  -- Between pairs: inside the outer brackets, with no number begun.
  between : Histogram → ℕ → ℕ → ℕ → Scan
  between h f a b = record {
    hist = h;
    depth = 1;
    field = f;
    num = 0;
    in_num = false;
    first = a;
    second = b;
  }

  scan_pair :
      (h : Histogram) (f a b i n : ℕ) (rest : Bytes)
      → i < length h
      → i < two_63
      → n < two_64
      → scan (between h f a b) (pair_text digits (i, n) ++ rest)
        ≡ scan (between (add_at i n h) 1 i n) rest
  unfolding between scan scan_byte end_number structure close_pair
  scan_pair h f a b i n rest k l m =
      let s0 : Scan = record (between h f a b) { depth = 2; field = 0 } in
      let s1 : Scan = record s0 { first = i; field = 1 } in
      let last = digits n ++ (93 ∷ []) in
      let index : scan (between h f a b) (pair_text digits (i, n) ++ rest)
          ≡ scan s1 (last ++ rest) =
        ap (scan s0) (append_assoc (digits i) (44 ∷ last) rest)
        ∙ scan_number s0 i (44 ∷ (last ++ rest)) refl (omega arith) in
      let size : scan s1 (last ++ rest) ≡ scan (record s1 { num = n; in_num = true }) (93 ∷ rest) =
        ap (scan s1) (append_assoc (digits n) (93 ∷ []) rest)
        ∙ scan_number s1 n (93 ∷ rest) refl m in
      index ∙ (size ∙ rw (below i l, inside i (length h) k) refl)
    where
      below : (x : ℕ) → x < two_63 → leb two_63 x ≡ false
      below x t = ground arith

      inside : (x y : ℕ) → x < y → leb y x ≡ false
      inside x y t = ground arith

  abbrev InRange : ℕ → ℕ × ℕ → Type 0
  InRange size p = (p.0 < size) × (p.0 < two_63) × (p.1 < two_64)

  scan_tail :
      (ps : List (ℕ × ℕ)) (h : Histogram) (f a b : ℕ)
      → All (InRange (length h)) ps
      → (scan (between h f a b) (tail_text digits ps) >=> finish) ≡ parsed (add_all ps h)
  unfolding between scan scan_byte end_number structure
  scan_tail [] h f a b ok_pairs = refl
  scan_tail (p ∷ ps) h f a b ok_pairs =
      ap (λ r. r >=> finish)
        (scan_pair h f a b p.0 p.1 (tail_text digits ps) ok_pairs.0.0 ok_pairs.0.1 ok_pairs.0.2)
      ∙ scan_tail ps (add_at p.0 p.1 h) 1 p.0 p.1 (rw (length-add_at p.0 p.1 h) ok_pairs.1)

  parse_pairs :
      (bounds : List ℕ) (ps : List (ℕ × ℕ))
      → All (InRange (suc (length bounds))) ps
      → parse_sparse_hist bounds (json ps) ≡ parsed (add_all ps (new_histogram bounds))
  unfolding parse_sparse_hist between scan scan_byte end_number structure
  parse_pairs bounds [] ok_pairs =
      ap (λ t. scan (scan_start (new_histogram bounds)) t >=> finish) (laws.compact [])
  parse_pairs bounds (p ∷ ps) ok_pairs =
      let h = new_histogram bounds in
      let sized : suc (length bounds) ≡ length h = sym (length-zeros (suc (length bounds))) in
      let fine : All (InRange (length h)) (p ∷ ps) =
        subst (λ m. All (InRange m) (p ∷ ps)) sized ok_pairs in
      ap (λ t. scan (scan_start h) t >=> finish) (laws.compact (p ∷ ps))
      ∙ (ap (λ r. r >=> finish)
            (scan_pair h 0 0 0 p.0 p.1 (tail_text digits ps) fine.0.0 fine.0.1 fine.0.2)
          ∙ scan_tail ps (add_at p.0 p.1 h) 1 p.0 p.1 (rw (length-add_at p.0 p.1 h) fine.1))

  -- Parsing what marshal stores gives the histogram back, for counts that an int64 holds.
  pub parse-marshal :
      (bounds : List ℕ) (h : Histogram)
      → length h ≡ suc (length bounds)
      → suc (length bounds) < two_63
      → All (λ c. c < two_63) h
      → parse_sparse_hist bounds (marshal json h) ≡ parsed h
  unfolding marshal
  parse-marshal bounds h sized short counts =
      parse_pairs bounds (pairs_from 0 h)
        (in_range 0 h (suc (length bounds)) (omega arith) short counts)
      ∙ ap parsed (ap (λ m. add_all (pairs_from 0 h) (zeros m)) (sym sized) ∙ sparse h)
    where
      in_range :
          (i : ℕ) (cs : Histogram) (size : ℕ)
          → i + length cs ≤ size
          → size < two_63
          → All (λ c. c < two_63) cs
          → All (InRange size) (pairs_from i cs)
      in_range i [] size e k a = tt
      in_range i (c ∷ cs) size e k a =
          let rest = in_range (suc i) cs size (omega arith) k a.1 in
          elim (Bool-cases (c == 0)) [
            | inl z ↦ rw z rest
            | inr z ↦ rw z ((omega arith, omega arith, omega (arith, a.0)), rest)
          ]
