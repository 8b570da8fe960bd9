-- ===== src/Examples/Controlled.antt =====
-- The controls' theorems at concrete inputs.
use go_flywheel.Base.{any, false, find, none, refl, some, str_eq, true, ◌&&◌, ◌≡◌}
use go_flywheel.Base.Int.{pos}
use go_flywheel.Controls.{
  Caller, delete_job, pause_job, reschedule_job, resume_job, set_job_priority,
}
use go_flywheel.Controls.Refusals.{running_is_refused, terminal_is_refused}
use go_flywheel.Controls.Retry.{RetryOpts, cancel_job, retry_job}
use go_flywheel.Controls.Retry.Fence.{cancel_ends_claim, retry_ends_claim}
use go_flywheel.Driver.Finalize.{holds_claim}
use go_flywheel.Examples.Data.{child_row, context, family, family-TableOk, parent_row}
use go_flywheel.Rows.{Db, in_scope}
use go_flywheel.Types.{err, job_running, job_terminal, ok}

abbrev operator : Caller
operator = record { ctx = context; refused = none; audit_hook = λ entries. none }

abbrev retry_opts : RetryOpts
retry_opts = record {
  force = false;
  allow_running = true;
  reset_attempts = true;
  budget = pos 2;
  delay = pos 0;
}

child_found : find (λ j. in_scope j && str_eq j.id "child") family.jobs ≡ some child_row
child_found = refl

running_is_refused_example :
    (pause_job operator family "child" ≡ err job_running)
    × (resume_job operator family "child" ≡ err job_running)
    × (delete_job operator family "child" ≡ err job_running)
    × (reschedule_job operator family "child" 5000 ≡ err job_running)
    × (set_job_priority operator family "child" (pos 7) ≡ err job_running)
running_is_refused_example =
    running_is_refused operator family "child" child_row refl child_found 5000 (pos 7) refl refl
      refl

terminal_is_refused_example :
    (pause_job operator family "parent" ≡ err job_terminal)
    × (resume_job operator family "parent" ≡ err job_terminal)
    × (cancel_job operator family "parent" ≡ err job_terminal)
    × (reschedule_job operator family "parent" 5000 ≡ err job_terminal)
    × (set_job_priority operator family "parent" (pos 7) ≡ err job_terminal)
terminal_is_refused_example =
    terminal_is_refused operator family "parent" parent_row refl refl 5000 (pos 7) refl refl refl

cancel_run : (d : Db) × (cancel_job operator family "child" ≡ ok d)
unfolding retry_job go_flywheel.Controls.lock_job go_flywheel.Controls.update_locked
    go_flywheel.Insert.Conflict.clash go_flywheel.Controls.Retry.retry_update
    go_flywheel.Controls.record_audit cancel_job go_flywheel.Controls.Retry.cancel_update
    go_flywheel.Driver.Barrier.fire_barrier_if_complete go_flywheel.Insert.Row.build_child_row
    go_flywheel.Insert.Stamp.stamp_row go_flywheel.Insert.Conflict.conflict_insert_chunk
    go_flywheel.Insert.Conflict.insert_skipping_conflicts go_flywheel.Insert.Conflict.before_create
    go_flywheel.Insert.Row.build_row
cancel_run = (_, refl)

cancel_ends_claim_example : any (holds_claim "child" "token") cancel_run.0.jobs ≡ false
cancel_ends_claim_example =
    cancel_ends_claim operator family cancel_run.0 "child" "token" family-TableOk.unique
      cancel_run.1

retry_run : (d : Db) × (retry_job operator family "child" retry_opts ≡ ok d)
unfolding retry_job go_flywheel.Controls.lock_job go_flywheel.Controls.update_locked
    go_flywheel.Insert.Conflict.clash go_flywheel.Controls.Retry.retry_update
    go_flywheel.Controls.record_audit
retry_run = (_, refl)

retry_ends_claim_example : any (holds_claim "child" "token") retry_run.0.jobs ≡ false
retry_ends_claim_example =
    retry_ends_claim operator family retry_run.0 "child" "token" retry_opts family-TableOk.unique
      retry_run.1
