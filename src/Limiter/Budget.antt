-- ===== src/Limiter/Budget.antt =====
-- LimiterBudget and SetLimiterBudget of internal/core/limiter_db.go. The entry that recordAudit
-- writes is a LimitsEntry; its hook answers with the error that fails the transaction, if any.
pub mod Force
use go_flywheel.Base.{
  Bool, List, Option, String, false, find, if◌then◌else◌, none, not, some, str_eq, true,
  update_where, ℕ, ◌&&◌,
}
use go_flywheel.Base.Int.{eq_ℤ, leb_ℤ, pos, pos_part, ℤ}
use go_flywheel.Controls.{refusal}
use go_flywheel.Limiter.{Bucket, is_bucket}
use go_flywheel.Types.{Error, Result, Time, err, guard, invalid, ok, ◌>>=◌, ◌>>◌}

pub record LimiterBudget : Type 0 where
  pub max_concurrent : Option ℤ
  pub rate : Option ℤ
  pub burst : Option ℤ

-- What SetLimiterBudget finds in its context: the refusal of resolveActor, the clock and the hook.
pub record BudgetCaller : Type 0 where
  pub refused : Option Error
  pub now : Time
  pub audit_hook : LimiterBudget → LimiterBudget → Option Error

pub record LimitsEntry : Type 0 where
  pub created_at : Time
  pub target_id : String
  pub from : LimiterBudget
  pub to : LimiterBudget

abbrev pub same_override : Option ℤ → Option ℤ → Bool
same_override none none = true
same_override none (some m) = false
same_override (some n) none = false
same_override (some n) (some m) = eq_ℤ n m

unfoldable pub equal : LimiterBudget → LimiterBudget → Bool
equal b o =
    same_override b.max_concurrent o.max_concurrent
    && same_override b.rate o.rate
    && same_override b.burst o.burst

abbrev pub stored : Option ℕ → Option ℤ
stored none = none
stored (some n) = some (pos n)

abbrev pub column : Option ℤ → Option ℕ
column none = none
column (some n) = some (pos_part n)

unfoldable pub overrides : Bucket → LimiterBudget
overrides b = record {
  max_concurrent = stored b.max_concurrent_override;
  rate = stored b.rate_override;
  burst = stored b.burst_override;
}

-- UPDATE of the three override columns.
unfoldable pub override_columns : LimiterBudget → Bucket → Bucket
override_columns b r = record r {
  max_concurrent_override = column b.max_concurrent;
  rate_override = column b.rate;
  burst_override = column b.burst;
}

abbrev pub override_valid : Option ℤ → Bool
override_valid none = true
override_valid (some n) = leb_ℤ (pos 1) n

abbrev pub no_state : Option Bucket → Result Bucket
no_state none =
    err (invalid "resource" "has no limiter state: a DBLimiter creates it on its first Acquire")
no_state (some b) = ok b

-- The buckets after the call, and the entry that it recorded.
unfoldable pub set_limiter_budget :
    BudgetCaller → List Bucket → String → LimiterBudget → Result (List Bucket × Option LimitsEntry)
unfolding equal
set_limiter_budget caller buckets resource b = do
  refusal caller.refused
  guard (not (str_eq resource "")) (invalid "resource" "is required")
  guard (override_valid b.max_concurrent) (invalid "max_concurrent" "must be at least 1")
  guard (override_valid b.rate) (invalid "rate" "must be at least 1")
  guard (override_valid b.burst) (invalid "burst" "must be at least 1")
  row ← no_state (find (is_bucket resource) buckets)
  if equal (overrides row) b then ok (buckets, none) else do
    refusal (caller.audit_hook (overrides row) b)
    ok (
      update_where (is_bucket resource) (override_columns b) buckets,
      some (record { created_at = caller.now; target_id = resource; from = overrides row; to = b }),
    )
