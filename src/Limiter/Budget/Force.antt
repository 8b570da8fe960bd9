-- ===== src/Limiter/Budget/Force.antt =====
-- About SetLimiterBudget of internal/core/limiter_db.go: the bucket and the entry that it leaves.
use go_flywheel.Base.{List, Option, String, find, none, some, true, ℕ, ◌≡◌, ◌≤◌, ◌⊎◌}
use go_flywheel.Base.Int.{pos, ℤ}
use go_flywheel.Limiter.{Bucket, is_bucket}
use go_flywheel.Limiter.Budget.{
  LimiterBudget, LimitsEntry, override_columns, override_valid, overrides,
}

abbrev Valid : LimiterBudget → Type 0
Valid b =
    (override_valid b.max_concurrent ≡ true)
    × (override_valid b.rate ≡ true)
    × (override_valid b.burst ≡ true)

-- What the steps of the call give.
abbrev Stepped : List Bucket → String → LimiterBudget → List Bucket × Option LimitsEntry → Type 0
Stepped buckets resource b r =
    Valid b
    × ((row : Bucket) × (find (is_bucket resource) buckets ≡ some row)
        × (find (is_bucket resource) r.0 ≡ some (override_columns b row))
        × (elim r.1 [ none ↦ overrides row ≡ b | some e ↦ (e.from ≡ overrides row) × (e.to ≡ b) ]))

-- What an override is in a budget and in a column: absent from both, or the same number in both.
abbrev pub Same : Option ℤ → Option ℕ → Type 0
Same asked held =
    (asked ≡ none) × (held ≡ none) ⊎ ((n : ℕ) × (asked ≡ some (pos n)) × (held ≡ some n))

-- An override that is absent, or 1 or more.
abbrev pub Positive : Option ℤ → Type 0
Positive asked = (asked ≡ none) ⊎ ((n : ℕ) × (asked ≡ some (pos n)) × (1 ≤ n))

-- The three overrides of a budget, next to the three columns of a bucket.
abbrev pub Columns : LimiterBudget → Bucket → Type 0
Columns b row =
    Same b.max_concurrent row.max_concurrent_override
    × Same b.rate row.rate_override
    × Same b.burst row.burst_override

-- The call as its caller sees it: the bucket it found, and the bucket that stands there now.
abbrev pub BudgetSet :
    List Bucket → String → LimiterBudget → List Bucket × Option LimitsEntry → Type 0
BudgetSet buckets resource b r =
    (Positive b.max_concurrent × Positive b.rate × Positive b.burst)
    × ((row : Bucket) × (row' : Bucket) × (find (is_bucket resource) buckets ≡ some row)
        × (find (is_bucket resource) r.0 ≡ some row')
        × Columns b row'
        × ((row'.resource ≡ row.resource)
            × (row'.tokens ≡ row.tokens)
            × (row'.refilled_at ≡ row.refilled_at)
            × (row'.updated_at ≡ row.updated_at))
        × (elim r.1 [ none ↦ row' ≡ row | some e ↦ Columns e.from row × Columns e.to row' ]))
