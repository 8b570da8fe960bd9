-- ===== src/Controls/Retry.antt =====
-- RetryJobWithOptions and CancelJob of internal/core/schedule.go.
pub mod Fence
pub mod Safe
use go_flywheel.Base.{
  Bool, List, Option, String, [], any, false, find, if◌then◌else◌, none, not, some, str_eq, true,
  ◌&&◌, ◌++◌, ◌==◌, ◌∷◌,
}
use go_flywheel.Base.Int.{leb_ℤ, pos, ℤ, ◌+ℤ◌}
use go_flywheel.Controls.{
  Caller, control_miss, entry_of, lock_job, record_audit, refusal, update_locked,
}
use go_flywheel.Driver.Barrier.{fire_barrier_if_complete}
use go_flywheel.Env.{Ctx}
use go_flywheel.Insert.Client.{already_enqueued_error}
use go_flywheel.Rows.{AuditAction, Db, Job, Run, in_scope}
use go_flywheel.Types.{
  Duration, Error, JobState, Result, RunOutcome, Time, add_time, already_enqueued, duplicate_key,
  err, guard, job_running, non_terminal_states, ok, state_eq, state_in, terminal_states,
  waiting_states, ◌>>=◌, ◌>>◌,
}

pub record RetryOpts : Type 0 where
  pub force : Bool
  pub allow_running : Bool
  pub reset_attempts : Bool
  pub budget : ℤ
  pub delay : Duration

abbrev pub retry_states : RetryOpts → List JobState
retry_states o =
    waiting_states
    ++ (if o.force then terminal_states else [])
    ++ (if o.allow_running then JobState.running ∷ [] else [])

-- attemptStillRuns
pub attempt_still_runs : List Run → Job → Bool
attempt_still_runs runs job =
    any (λ r. str_eq r.job_id job.id && r.attempt == job.attempt && is_started r.outcome) runs
  where
    is_started : RunOutcome → Bool
    is_started RunOutcome.started = true
    is_started _ = false

-- applyRetryBudget
abbrev retry_budget : RetryOpts → Job → ℤ
retry_budget o j =
    if o.reset_attempts
    then (if leb_ℤ o.budget (pos 0)
        then pos j.attempt +ℤ j.max_attempts
        else pos j.attempt +ℤ o.budget)
    else j.max_attempts

unfoldable pub retry_update : RetryOpts → Time → Job → Job
retry_update o now j = record j {
  state = JobState.available;
  leased_until = none;
  lease_token = none;
  finalized_at = none;
  scheduled_at = add_time now o.delay;
  updated_at = now;
  max_attempts = retry_budget o j;
}

-- retryHolder: the live row that holds the job's active key.
pub retry_holder : List Job → String → Error
retry_holder table id = elim (find (λ j. in_scope j && str_eq j.id id) table) [
  | none ↦ already_enqueued "" ""
  | some j ↦ elim j.unique_active_key [
    | none ↦ already_enqueued "" ""
    | some k ↦ already_enqueued_error table "" k
  ]
]

-- The transaction of RetryJobWithOptions.
unfoldable pub retry_on_tx : Caller → Db → String → RetryOpts → Result Db
unfolding attempt_still_runs
retry_on_tx caller db id o = do
  job ← lock_job db.jobs id
  guard (state_in job.state (retry_states o)) (control_miss job.state)
  guard
      (not (
        state_eq job.state JobState.cancelled
        && o.force
        && not o.allow_running
        && attempt_still_runs db.runs job))
      job_running
  table ← update_locked db.jobs job (retry_update o caller.ctx.now)
  record_audit caller (record db { jobs = table })
      (entry_of caller.ctx id AuditAction.retried job.state)

abbrev pub name_holder : List Job → String → Result Db → Result Db
name_holder table id (ok d) = ok d
name_holder table id (err duplicate_key) = err (retry_holder table id)
name_holder table id (err e) = err e

unfoldable pub retry_job : Caller → Db → String → RetryOpts → Result Db
unfolding retry_on_tx
retry_job caller db id o = do
  refusal caller.refused
  name_holder db.jobs id (retry_on_tx caller db id o)

unfoldable pub cancel_update : Time → Job → Job
cancel_update now j = record j {
  state = JobState.cancelled;
  leased_until = none;
  lease_token = none;
  finalized_at = some now;
  updated_at = now;
}

-- The parent's barrier, after a child was cancelled.
unfoldable pub fire_for : Ctx → Db → Option String → String → Result Db
fire_for c db none id = ok db
fire_for c db (some parent_id) id = do
  (db', fired) ← fire_barrier_if_complete c db parent_id id
  ok db'

unfoldable pub cancel_job : Caller → Db → String → Result Db
unfolding fire_for
cancel_job caller db id = do
  refusal caller.refused
  job ← lock_job db.jobs id
  guard (state_in job.state non_terminal_states) (control_miss job.state)
  table ← update_locked db.jobs job (cancel_update caller.ctx.now)
  db' ← fire_for caller.ctx (record db { jobs = table }) job.parent_job_id id
  record_audit caller db' (entry_of caller.ctx id AuditAction.cancelled job.state)
