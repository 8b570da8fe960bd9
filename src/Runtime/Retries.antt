-- ===== src/Runtime/Retries.antt =====
-- About RetryJobWithOptions and CancelJob of internal/core/schedule.go: how they move a job's state.
use go_flywheel.Base.{List, Option, String, false, none, not, refl, some, true, ◌&&◌}
use go_flywheel.Controls.{Caller, control_miss, entry_of, lock_job, refusal, update_locked}
use go_flywheel.Controls.Keeps.{guard-true, record_audit-OnOk}
use go_flywheel.Controls.Retry.{
  RetryOpts, attempt_still_runs, cancel_job, cancel_update, fire_for, retry_job, retry_on_tx,
  retry_states, retry_update,
}
use go_flywheel.Controls.Retry.Fence.{name_holder-OnOk}
use go_flywheel.Driver.Barrier.{fire_barrier_if_complete}
use go_flywheel.Env.{Ctx}
use go_flywheel.Rows.{AuditAction, Db, Job}
use go_flywheel.Runtime.Moves.{
  adding, from_locked, moved, moved_refl, moving, only, update_locked-Evolves,
}
use go_flywheel.Runtime.Stays.{Stays, fire-Stays, Stays-refl}
use go_flywheel.Store.Evolves.{Evolves, Evolves-stay}
use go_flywheel.Types.{
  JobState, OnOk, OnOk-at, OnOk-bind, guard, job_running, non_terminal_states, state_eq, state_in,
}

retry_on_tx-Evolves :
    (caller : Caller) (db : Db) (id : String) (o : RetryOpts)
    → OnOk
        (λ d. Evolves (moving (moved (retry_states o) (only JobState.available))) db.jobs d.jobs)
        (retry_on_tx caller db id o)
unfolding retry_on_tx retry_update
retry_on_tx-Evolves caller db id o =
    let m = moved (retry_states o) (only JobState.available) in
    let idle = moved_refl (retry_states o) (only JobState.available) in
    let P : List Job → Type 0 = Evolves (moving m) db.jobs in
    OnOk-bind (λ d. P d.jobs) (lock_job db.jobs id) _
      λ job _.
        OnOk-bind (λ d. P d.jobs)
          (guard (state_in job.state (retry_states o)) (control_miss job.state)) _
          λ a k.
            OnOk-bind (λ d. P d.jobs)
              (guard
                (not (
                  state_eq job.state JobState.cancelled
                  && o.force
                  && not o.allow_running
                  && attempt_still_runs db.runs job))
                job_running)
              _
              λ b _.
                OnOk-bind (λ d. P d.jobs)
                  (update_locked db.jobs job (retry_update o caller.ctx.now)) _
                  λ t e.
                    record_audit-OnOk P caller (record db { jobs = t })
                      (entry_of caller.ctx id AuditAction.retried job.state)
                      (OnOk-at P (update_locked db.jobs job (retry_update o caller.ctx.now)) t
                        (update_locked-Evolves m idle false db.jobs job
                          (retry_update o caller.ctx.now)
                          (λ j l. (
                            refl,
                            from_locked (retry_states o) (only JobState.available) job.state j.state
                                JobState.available (guard-true _ (control_miss job.state) a k) refl
                                l,
                          )))
                        e)

pub retry_job-Evolves :
    (caller : Caller) (db : Db) (id : String) (o : RetryOpts)
    → OnOk
        (λ d. Evolves (moving (moved (retry_states o) (only JobState.available))) db.jobs d.jobs)
        (retry_job caller db id o)
unfolding retry_job
retry_job-Evolves caller db id o =
    let P : Db → Type 0 =
      λ d. Evolves (moving (moved (retry_states o) (only JobState.available))) db.jobs d.jobs in
    OnOk-bind P (refusal caller.refused) _ λ a _.
      name_holder-OnOk P db.jobs id (retry_on_tx caller db id o)
        (retry_on_tx-Evolves caller db id o)

fire_for-Stays :
    (c : Ctx) (db : Db) (parent : Option String) (id : String)
    → OnOk (λ d. Stays db.jobs d.jobs) (fire_for c db parent id)
unfolding fire_for
fire_for-Stays c db none id = Stays-refl db.jobs
fire_for-Stays c db (some p) id =
    OnOk-bind (λ d. Stays db.jobs d.jobs) (fire_barrier_if_complete c db p id) _
      λ r e.
        OnOk-at (λ x. Stays db.jobs x.0.jobs) (fire_barrier_if_complete c db p id) r
          (fire-Stays c db p id) e

pub cancel_job-Evolves :
    (caller : Caller) (db : Db) (id : String)
    → OnOk
        (λ d. Evolves (adding (moved non_terminal_states (only JobState.cancelled))) db.jobs d.jobs)
        (cancel_job caller db id)
unfolding cancel_job cancel_update
cancel_job-Evolves caller db id =
    let m = moved non_terminal_states (only JobState.cancelled) in
    let idle = moved_refl non_terminal_states (only JobState.cancelled) in
    let P : List Job → Type 0 = Evolves (adding m) db.jobs in
    OnOk-bind (λ d. P d.jobs) (refusal caller.refused) _
      λ _ _.
        OnOk-bind (λ d. P d.jobs) (lock_job db.jobs id) _
          λ job _.
            OnOk-bind (λ d. P d.jobs)
              (guard (state_in job.state non_terminal_states) (control_miss job.state)) _
              λ b k.
                OnOk-bind (λ d. P d.jobs) (update_locked db.jobs job (cancel_update caller.ctx.now))
                  _
                  λ t e.
                    let db' : Db = record db { jobs = t } in
                    let moved_on =
                      OnOk-at P (update_locked db.jobs job (cancel_update caller.ctx.now)) t
                        (update_locked-Evolves m idle true db.jobs job
                          (cancel_update caller.ctx.now)
                          (λ j l. (
                            refl,
                            from_locked non_terminal_states (only JobState.cancelled) job.state
                                j.state JobState.cancelled
                                (guard-true _ (control_miss job.state) b k) refl l,
                          )))
                        e in
                    OnOk-bind (λ d. P d.jobs) (fire_for caller.ctx db' job.parent_job_id id) _
                      λ d' e'.
                        record_audit-OnOk P caller d'
                          (entry_of caller.ctx id AuditAction.cancelled job.state)
                          (Evolves-stay (adding m) refl db.jobs t d'.jobs moved_on (
                            OnOk-at (λ x. Stays t x.jobs)
                              (fire_for caller.ctx db' job.parent_job_id id) d'
                              (fire_for-Stays caller.ctx db' job.parent_job_id id) e'))
