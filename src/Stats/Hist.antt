-- ===== src/Stats/Hist.antt =====
-- internal/core/stats_hist.go: counts of durations in fixed buckets, and their stored form. The
-- bounds, which the source computes in floating point and pins in a golden file, are a parameter, as
-- are sort.Search and json.Marshal. Counts are ℕ below 2^63; the number that the parser accumulates
-- is an int64 by its 64 bits, so that one from 2^63 on is negative.
pub mod RoundTrip
pub mod Merge
use go_flywheel.Base.{
  Bool, List, String, [], false, if◌then◌else◌, leb, length, ltb, not, suc, true, zero, ℕ, ◌%◌,
  ◌&&◌, ◌*◌, ◌+◌, ◌-◌, ◌==◌, ◌||◌, ◌∷◌,
}
use go_flywheel.Types.{Bytes}

abbrev pub Histogram : Type 0
Histogram = List ℕ

-- make(histogram, n)
abbrev pub zeros : ℕ → Histogram
zeros zero = []
zeros (suc n) = 0 ∷ zeros n

abbrev pub new_histogram : List ℕ → Histogram
new_histogram bounds = zeros (suc (length bounds))

abbrev bound_at : List ℕ → ℕ → ℕ
bound_at [] i = 0
bound_at (b ∷ bs) zero = b
bound_at (b ∷ bs) (suc i) = bound_at bs i

-- A nil histogram has no slot, and an index past the end panics in Go; a bucket is in range.
abbrev pub add_at : ℕ → ℕ → Histogram → Histogram
add_at i n [] = []
add_at zero n (c ∷ cs) = (c + n) ∷ cs
add_at (suc i) n (c ∷ cs) = c ∷ add_at i n cs

unfoldable pub hist_bucket : (ℕ → (ℕ → Bool) → ℕ) → List ℕ → ℕ → ℕ
hist_bucket seek bounds ms = seek (length bounds) (λ i. leb ms (bound_at bounds i))

unfoldable pub observe : (ℕ → (ℕ → Bool) → ℕ) → List ℕ → Histogram → ℕ → Histogram
unfolding hist_bucket
observe seek bounds h ms = add_at (hist_bucket seek bounds ms) 1 h

-- add: what the other has past the end of h is dropped.
unfoldable pub add : Histogram → Histogram → Histogram
add [] other = []
add (c ∷ cs) [] = c ∷ cs
add (c ∷ cs) (d ∷ ds) = (c + d) ∷ add cs ds

unfoldable pub total : Histogram → ℕ
total [] = 0
total (c ∷ cs) = c + total cs

-- The pairs that marshal collects, from a bucket on.
unfoldable pub pairs_from : ℕ → Histogram → List (ℕ × ℕ)
pairs_from i [] = []
pairs_from i (c ∷ cs) = let rest = pairs_from (suc i) cs in if c == 0 then rest else (i, c) ∷ rest

unfoldable pub marshal : (List (ℕ × ℕ) → Bytes) → Histogram → Bytes
unfolding pairs_from
marshal json h = json (pairs_from 0 h)

-- How a parse goes on or ends: an error, or the panic of a negative index.
pub data Parse {ℓ} (V : Type ℓ) : Type ℓ where
  parsed : V → Parse V
  refused : String → Parse V
  panicked : Parse V

infixl 5 ◌>=>◌
abbrev pub ◌>=>◌ {ℓ μ} : {V : Type ℓ} {W : Type μ} → Parse V → (V → Parse W) → Parse W
parsed v >=> next = next v
refused e >=> next = refused e
panicked >=> next = panicked

-- The variables of parseSparseHist's loop.
pub record Scan : Type 0 where
  pub hist : Histogram
  pub depth : ℕ
  pub field : ℕ
  pub num : ℕ
  pub in_num : Bool
  pub first : ℕ
  pub second : ℕ

abbrev pub two_63 : ℕ
two_63 = 9223372036854775808

abbrev pub two_64 : ℕ
two_64 = 18446744073709551616

abbrev pub is_digit : ℕ → Bool
is_digit c = leb 48 c && leb c 57

abbrev pub is_space : ℕ → Bool
is_space c = c == 32 || c == 9 || c == 10 || c == 13

-- The end of a number: `pair[field] = num`.
unfoldable pub end_number : Scan → Parse Scan
end_number s =
    if s.in_num
    then (if not (s.depth == 2) || ltb 1 s.field
        then refused "decode histogram: unexpected number"
        else if s.field == 0
        then parsed (record s { first = s.num; num = 0; in_num = false })
        else parsed (record s { second = s.num; num = 0; in_num = false }))
    else parsed s

-- The end of a pair: an index that is negative is no less than the length.
unfoldable pub close_pair : Scan → Parse Scan
close_pair s =
    if not (s.field == 1)
    then refused "decode histogram: a pair needs two numbers"
    else if leb two_63 s.first
    then panicked
    else if leb (length s.hist) s.first
    then refused "decode histogram: bucket out of range"
    else parsed (record s { hist = add_at s.first s.second s.hist })

abbrev close_bracket : Scan → Parse Scan
close_bracket s =
    if s.depth == 0
    then refused "decode histogram: unbalanced brackets"
    else parsed (record s { depth = s.depth - 1 })

unfoldable pub structure : ℕ → Scan → Parse Scan
unfolding close_pair
structure c s =
    if c == 91
    then (if leb 2 s.depth
        then refused "decode histogram: nested too deep"
        else parsed (record s { depth = suc s.depth; field = 0 }))
    else if c == 44
    then parsed (if s.depth == 2 then record s { field = suc s.field } else s)
    else if c == 93
    then ((if s.depth == 2 then close_pair s else parsed s) >=> close_bracket)
    else refused "decode histogram: unexpected byte"

-- One byte.
unfoldable pub scan_byte : Scan → ℕ → Parse Scan
unfolding end_number structure
scan_byte s c =
    if is_digit c
    then parsed (record s { num = (s.num * 10 + (c - 48)) % two_64; in_num = true })
    else if is_space c
    then parsed s
    else (end_number s >=> structure c)

unfoldable pub scan : Scan → Bytes → Parse Scan
scan s [] = parsed s
scan s (c ∷ cs) = scan_byte s c >=> (λ s'. scan s' cs)

abbrev pub finish : Scan → Parse Histogram
finish s =
    if not (s.depth == 0) || s.in_num then refused "decode histogram: truncated" else parsed s.hist

abbrev pub scan_start : Histogram → Scan
scan_start h = record {
  hist = h;
  depth = 0;
  field = 0;
  num = 0;
  in_num = false;
  first = 0;
  second = 0;
}

unfoldable pub parse_sparse_hist : List ℕ → Bytes → Parse Histogram
unfolding scan
parse_sparse_hist bounds raw = scan (scan_start (new_histogram bounds)) raw >=> finish
