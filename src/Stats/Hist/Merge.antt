-- ===== src/Stats/Hist/Merge.antt =====
-- About add and observe of internal/core/stats_hist.go.
use go_flywheel.Base.{
  Bool, List, [], ap, arith, length, refl, suc, zero, ℕ, ◌+◌, ◌<◌, ◌∷◌, ◌≡◌, ◌≤◌,
}
use go_flywheel.Stats.Hist.{Histogram, add, add_at, hist_bucket, observe, total}

total-add_at : (i n : ℕ) (h : Histogram) → i < length h → total (add_at i n h) ≡ total h + n
unfolding total
total-add_at i n [] k = absurd (omega arith)
total-add_at zero n (c ∷ cs) k = omega arith
total-add_at (suc i) n (c ∷ cs) k = omega (arith, total-add_at i n cs (omega arith))

-- What sort.Search documents: over a test that holds from some index on, the least index that passes,
-- or the number of indices.
record SearchLaws (seek : ℕ → (ℕ → Bool) → ℕ) : Type 0 where
  pub in_range : (n : ℕ) (p : ℕ → Bool) → seek n p ≤ n

-- Merging histograms of the same buckets loses no count and invents none, bucket by bucket and in
-- total; and an observed duration is counted once.
counts_exact :
    (seek : ℕ → (ℕ → Bool) → ℕ) (laws : SearchLaws seek) (bounds : List ℕ) (h other : Histogram)
    (ms : ℕ)
    → length h ≡ suc (length bounds)
    → length other ≡ length h
    → (total (add h other) ≡ total h + total other)
      × (length (add h other) ≡ length h)
      × (total (observe seek bounds h ms) ≡ total h + 1)
unfolding observe hist_bucket total add
counts_exact seek laws bounds h other ms sized same = (
  total-add h other same,
  length-add h other,
  total-add_at _ 1 h (omega (arith, laws.in_range (length bounds) _)),
)
  where
    total-add : (h k : Histogram) → length k ≡ length h → total (add h k) ≡ total h + total k
    total-add [] [] e = omega arith
    total-add [] (d ∷ ds) e = absurd (omega arith)
    total-add (c ∷ cs) [] e = absurd (omega arith)
    total-add (c ∷ cs) (d ∷ ds) e = omega (arith, total-add cs ds (omega arith))

    length-add : (h k : Histogram) → length (add h k) ≡ length h
    length-add [] k = refl
    length-add (c ∷ cs) [] = refl
    length-add (c ∷ cs) (d ∷ ds) = ap suc (length-add cs ds)
