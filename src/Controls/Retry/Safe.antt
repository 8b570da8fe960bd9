-- ===== src/Controls/Retry/Safe.antt =====
-- About RetryJobWithOptions and CancelJob of internal/core/schedule.go: the jobs table they leave.
use go_flywheel.Base.{Option, String, none, not, refl, some, ◌&&◌}
use go_flywheel.Controls.{Caller, control_miss, entry_of, lock_job, refusal, update_locked}
use go_flywheel.Controls.Keeps.{record_audit-OnOk}
use go_flywheel.Controls.Retry.{
  RetryOpts, attempt_still_runs, cancel_job, cancel_update, fire_for, retry_job, retry_on_tx,
  retry_states, retry_update,
}
use go_flywheel.Controls.Retry.Fence.{name_holder-OnOk}
use go_flywheel.Controls.Safe.{update_locked-TableOk}
use go_flywheel.Driver.Barrier.{fire_barrier_if_complete}
use go_flywheel.Driver.Barrier.Fires.{fire-TableOk}
use go_flywheel.Env.{Ctx}
use go_flywheel.Rows.{AuditAction, Db}
use go_flywheel.Store.Wf.{TableOk}
use go_flywheel.Types.{
  JobState, OnOk, OnOk-at, OnOk-bind, guard, job_running, non_terminal_states, state_eq, state_in,
}

retry_on_tx-TableOk :
    (caller : Caller) (db : Db) (id : String) (o : RetryOpts)
    → TableOk db.jobs
    → OnOk (λ d. TableOk d.jobs) (retry_on_tx caller db id o)
unfolding retry_on_tx retry_update
retry_on_tx-TableOk caller db id o w =
    OnOk-bind (λ d. TableOk d.jobs) (lock_job db.jobs id) _
      λ job _.
        OnOk-bind (λ d. TableOk d.jobs)
          (guard (state_in job.state (retry_states o)) (control_miss job.state)) _
          λ a _.
            OnOk-bind (λ d. TableOk d.jobs)
              (guard
                (not (
                  state_eq job.state JobState.cancelled
                  && o.force
                  && not o.allow_running
                  && attempt_still_runs db.runs job))
                job_running)
              _
              λ b _.
                OnOk-bind (λ d. TableOk d.jobs)
                  (update_locked db.jobs job (retry_update o caller.ctx.now)) _
                  λ t e.
                    record_audit-OnOk TableOk caller (record db { jobs = t })
                      (entry_of caller.ctx id AuditAction.retried job.state)
                      (OnOk-at TableOk (update_locked db.jobs job (retry_update o caller.ctx.now)) t
                        (update_locked-TableOk db.jobs job (retry_update o caller.ctx.now)
                          (λ j l v. record {
                            leased = refl;
                            lease_ends = refl;
                            finalized = refl;
                            barrier_whole = v.barrier_whole;
                          })
                          w)
                        e)

pub retry_job-TableOk :
    (caller : Caller) (db : Db) (id : String) (o : RetryOpts)
    → TableOk db.jobs
    → OnOk (λ d. TableOk d.jobs) (retry_job caller db id o)
unfolding retry_job
retry_job-TableOk caller db id o w =
    OnOk-bind (λ d. TableOk d.jobs) (refusal caller.refused) _
      λ a _.
        name_holder-OnOk (λ d. TableOk d.jobs) db.jobs id (retry_on_tx caller db id o)
          (retry_on_tx-TableOk caller db id o w)

fire_for-TableOk :
    (c : Ctx) (db : Db) (parent : Option String) (id : String)
    → TableOk db.jobs
    → OnOk (λ d. TableOk d.jobs) (fire_for c db parent id)
unfolding fire_for
fire_for-TableOk c db none id w = w
fire_for-TableOk c db (some p) id w =
    OnOk-bind (λ d. TableOk d.jobs) (fire_barrier_if_complete c db p id) _
      λ r e.
        OnOk-at (λ x. TableOk x.0.jobs) (fire_barrier_if_complete c db p id) r
          (fire-TableOk c db p id w) e

pub cancel_job-TableOk :
    (caller : Caller) (db : Db) (id : String)
    → TableOk db.jobs
    → OnOk (λ d. TableOk d.jobs) (cancel_job caller db id)
unfolding cancel_job cancel_update
cancel_job-TableOk caller db id w =
    OnOk-bind (λ d. TableOk d.jobs) (refusal caller.refused) _
      λ a _.
        OnOk-bind (λ d. TableOk d.jobs) (lock_job db.jobs id) _
          λ job _.
            OnOk-bind (λ d. TableOk d.jobs)
              (guard (state_in job.state non_terminal_states) (control_miss job.state)) _
              λ b _.
                OnOk-bind (λ d. TableOk d.jobs)
                  (update_locked db.jobs job (cancel_update caller.ctx.now)) _
                  λ t e.
                    let good =
                      OnOk-at TableOk (update_locked db.jobs job (cancel_update caller.ctx.now)) t
                        (update_locked-TableOk db.jobs job (cancel_update caller.ctx.now)
                          (λ j l v. record {
                            leased = refl;
                            lease_ends = refl;
                            finalized = refl;
                            barrier_whole = v.barrier_whole;
                          })
                          w)
                        e in
                    let db' : Db = record db { jobs = t } in
                    OnOk-bind (λ d. TableOk d.jobs) (fire_for caller.ctx db' job.parent_job_id id) _
                      λ d' e'.
                        record_audit-OnOk TableOk caller d'
                          (entry_of caller.ctx id AuditAction.cancelled job.state)
                          (OnOk-at (λ x. TableOk x.jobs)
                            (fire_for caller.ctx db' job.parent_job_id id) d'
                            (fire_for-TableOk caller.ctx db' job.parent_job_id id good) e')
