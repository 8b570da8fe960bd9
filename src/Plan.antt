-- ===== src/Plan.antt =====
-- planFinalize and jobFinalizeUpdate of internal/core/driver.go: the state an attempt's end moves
-- its job to. Durations are nanoseconds.
pub mod Cases
use go_flywheel.Base.{ℕ, String, Bool, true, false, ◌||◌, Option, none, some, if◌then◌else◌}
use go_flywheel.Base.Int.{ℤ, pos, ◌+ℤ◌, leb_ℤ, ltb_ℤ, eq_ℤ}
use go_flywheel.Types.{
  Time, Duration, add_time, JobState, ErrorClass, RunOutcome, transient, permanent, validation,
  timeout,
}
use go_flywheel.Env.{Lib}
use go_flywheel.Rows.{Job}
use go_flywheel.Work.{RawJob, WorkResult, WorkErr, ClassifiedError}

pub record FinalizePlan : Type 0 where
  pub job_state : JobState
  pub run_outcome : RunOutcome
  pub scheduled_at : Option Time
  pub finalized_at : Option Time
  pub max_attempts_delta : ℤ
  pub error_class : Option ErrorClass
  pub follow_ups : Bool

abbrev pub one_second : Duration
one_second = pos 1000000000

abbrev pub one_minute : Duration
one_minute = pos 60000000000

unfoldable pub default_backoff : Lib → ℕ → Duration
default_backoff lib attempt = lib.exponential one_second one_minute attempt

-- The class and the delay that the two `if`s under errors.As leave.
abbrev pub class_of : Option ClassifiedError → ErrorClass
class_of none = transient
class_of (some ce) = elim ce.class [ none ↦ transient | some c ↦ c ]

abbrev pub delay_of : Duration → Option ClassifiedError → Duration
delay_of d none = d
delay_of d (some ce) = if ltb_ℤ (pos 0) ce.retry_delay then ce.retry_delay else d

abbrev pub is_permanent : ErrorClass → Bool
is_permanent permanent = true
is_permanent validation = true
is_permanent _ = false

abbrev pub outcome_of : ErrorClass → RunOutcome
outcome_of timeout = RunOutcome.timeout
outcome_of _ = RunOutcome.error

unfoldable pub plan_error : RawJob → ErrorClass → Duration → Time → FinalizePlan
plan_error raw class delay finished_at =
    if is_permanent class || leb_ℤ raw.max_attempts (pos raw.attempt)
    then record {
      job_state = JobState.discarded;
      run_outcome = outcome_of class;
      scheduled_at = none;
      finalized_at = some finished_at;
      max_attempts_delta = pos 0;
      error_class = some class;
      follow_ups = false;
    }
    else record {
      job_state = JobState.retryable;
      run_outcome = outcome_of class;
      scheduled_at = some (add_time finished_at delay);
      finalized_at = none;
      max_attempts_delta = pos 0;
      error_class = some class;
      follow_ups = false;
    }

pub plan_cancel : Time → FinalizePlan
plan_cancel finished_at = record {
  job_state = JobState.cancelled;
  run_outcome = RunOutcome.cancelled;
  scheduled_at = none;
  finalized_at = some finished_at;
  max_attempts_delta = pos 0;
  error_class = none;
  follow_ups = false;
}

pub plan_snooze : Duration → Time → FinalizePlan
plan_snooze d finished_at = record {
  job_state = JobState.scheduled;
  run_outcome = RunOutcome.snooze;
  scheduled_at = some (add_time finished_at d);
  finalized_at = none;
  max_attempts_delta = pos 1;
  error_class = none;
  follow_ups = false;
}

pub plan_success : Time → FinalizePlan
plan_success finished_at = record {
  job_state = JobState.succeeded;
  run_outcome = RunOutcome.success;
  scheduled_at = none;
  finalized_at = some finished_at;
  max_attempts_delta = pos 0;
  error_class = none;
  follow_ups = true;
}

unfoldable pub plan_finalize : Lib → RawJob → WorkResult → Option WorkErr → Time → FinalizePlan
unfolding plan_error plan_cancel plan_snooze plan_success default_backoff
plan_finalize lib raw result work_err finished_at =
    if result.cancel then plan_cancel finished_at else elim result.snooze [
      | some d ↦ plan_snooze d finished_at
      | none ↦ elim work_err [
        | some e ↦
            plan_error raw (class_of e.classified)
              (delay_of (default_backoff lib raw.attempt) e.classified) finished_at
        | none ↦ plan_success finished_at
      ]
    ]

-- The columns of jobFinalizeUpdate, written on a row.
unfoldable pub job_finalize_update : FinalizePlan → Time → Job → Job
job_finalize_update plan finished_at j = record j {
  state = plan.job_state;
  updated_at = finished_at;
  leased_until = none;
  lease_token = none;
  scheduled_at = elim plan.scheduled_at [ none ↦ j.scheduled_at | some t ↦ t ];
  finalized_at = elim plan.finalized_at [ none ↦ j.finalized_at | some t ↦ some t ];
  max_attempts =
      if eq_ℤ plan.max_attempts_delta (pos 0)
      then j.max_attempts
      else j.max_attempts +ℤ plan.max_attempts_delta;
}
