-- ===== src/Examples/Limits.antt =====
-- The limiter's theorems at concrete inputs.
use go_flywheel.Base.{String, [], arith, none, refl, some, ℕ, ◌∷◌, ◌≡◌}
use go_flywheel.Base.Int.{pos}
use go_flywheel.Limiter.{
  Bucket, Grant, Hold, Limiter, LimiterConfig, LimiterDb, acquire, caps_for, new_db_limiter,
  reads_bucket, refill, release_grant, seed_bucket,
}
use go_flywheel.Limiter.Budget.{BudgetCaller, LimiterBudget, set_limiter_budget}
use go_flywheel.Limiter.Config.{Sound, caps_for-Sound}
use go_flywheel.Limiter.Holds.{Admitted, Metered, acquire_spends_tokens, acquire_within_cap}
use go_flywheel.Limiter.Permits.{release_each, release_undoes_acquire}
use go_flywheel.Limiter.Refill.{Refilled, refill_credit}
use go_flywheel.Types.{ok}

abbrev config : LimiterConfig
config = record {
  rate = pos 2;
  interval = pos 1000;
  burst = pos 4;
  max_concurrent = pos 3;
  hold_ttl = pos 5000;
  sweep_interval = pos 0;
}

abbrev limiter : Limiter
limiter = record {
  rate = 2;
  interval = pos 1000;
  burst = 4;
  max_concurrent = 3;
  hold_ttl = pos 5000;
  sweep_interval = pos 5000;
}

abbrev bucket : Bucket
bucket = record {
  resource = "api";
  tokens = 1;
  refilled_at = 100;
  updated_at = 100;
  max_concurrent_override = none;
  rate_override = some 3;
  burst_override = none;
}

abbrev old_hold : Hold
old_hold = record { token = "old"; resource = "api"; n = 2; expires_at = 500 }

abbrev live_hold : Hold
live_hold = record { token = "live"; resource = "api"; n = 1; expires_at = 9000 }

abbrev limits : LimiterDb
limits = record { buckets = bucket ∷ []; holds = old_hold ∷ live_hold ∷ []; minted = 0 }

abbrev mint : ℕ → String
mint n = "new"

acquired : (r : LimiterDb × Grant) × (acquire limiter mint 900 limits "api" (pos 5) ≡ ok r)
unfolding acquire go_flywheel.Limiter.reads_bucket go_flywheel.Limiter.seed_bucket
    go_flywheel.Limiter.take_permits
acquired = (_, refl)

made : new_db_limiter config ≡ some limiter
unfolding new_db_limiter
made = refl

caps_for-Sound_example : Sound limiter bucket
caps_for-Sound_example = caps_for-Sound config limiter bucket made refl

refill_credit_example :
    Refilled (caps_for limiter bucket) 1000 900 bucket (refill limiter bucket 900)
unfolding caps_for
refill_credit_example = refill_credit limiter bucket 900 (omega arith) (omega arith) (omega arith)

-- A burst of 200000 over a day: the product of the two passes an int64, the time to fill the bucket
-- comes out below 0, and a nanosecond fills it.
abbrev daily : Limiter
daily = record limiter { rate = 200000; interval = pos 86400000000000; burst = 200000 }

abbrev bare_bucket : Bucket
bare_bucket = record bucket { tokens = 0; rate_override = none }

wrapped : (refill daily bare_bucket 101).tokens ≡ 200000
unfolding set_limiter_budget go_flywheel.Limiter.Budget.overrides acquired caps_for
    go_flywheel.Limiter.grant_size go_flywheel.Limiter.surviving go_flywheel.Limiter.refreshed
    refill go_flywheel.Limiter.cost go_flywheel.Limiter.earned
wrapped = refl

acquire_within_cap_example : Admitted limiter 900 limits "api" 5 bucket acquired.0
unfolding reads_bucket caps_for seed_bucket
acquire_within_cap_example =
    acquire_within_cap limiter mint 900 limits "api" 4 bucket acquired.0 refl refl acquired.1

acquire_spends_tokens_example : Metered limiter 900 "api" bucket acquired.0
unfolding reads_bucket caps_for seed_bucket
acquire_spends_tokens_example =
    acquire_spends_tokens limiter mint 900 limits "api" 4 bucket acquired.0 refl refl (omega arith)
      acquired.1

permits_granted : acquired.0.1.n ≡ 2
unfolding set_limiter_budget go_flywheel.Limiter.Budget.overrides acquired caps_for
    go_flywheel.Limiter.grant_size go_flywheel.Limiter.surviving go_flywheel.Limiter.refreshed
    refill go_flywheel.Limiter.cost go_flywheel.Limiter.earned
permits_granted = refl

release_undoes_acquire_example :
    ((release_grant acquired.0.0 acquired.0.1).holds ≡ live_hold ∷ [])
    × ((release_each acquired.0.1.n acquired.0.0 acquired.0.1).holds ≡ live_hold ∷ [])
unfolding reads_bucket caps_for seed_bucket
release_undoes_acquire_example =
    release_undoes_acquire limiter mint 900 limits "api" 4 bucket acquired.0 refl refl (omega arith)
      refl refl acquired.1 (omega (arith, permits_granted))

abbrev budget : LimiterBudget
budget = record { max_concurrent = some (pos 2); rate = none; burst = none }

abbrev operator : BudgetCaller
operator = record { refused = none; now = 1000; audit_hook = λ from to. none }
