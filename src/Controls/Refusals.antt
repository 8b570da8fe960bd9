-- ===== src/Controls/Refusals.antt =====
-- About the controls of job_controls.go and schedule.go in the states that they refuse.
use go_flywheel.Base.{String, arith, false, find, none, refl, some, str_eq, true, ◌&&◌, ◌==◌, ◌≡◌}
use go_flywheel.Base.Int.{leb_ℤ, pos, ℤ}
use go_flywheel.Controls.{
  Caller, control_job, control_miss, delete_job, lock_job, pause_job, reschedule_job, resume_job,
  set_job_priority,
}
use go_flywheel.Controls.Retry.{cancel_job}
use go_flywheel.Rows.{Db, Job, in_scope}
use go_flywheel.Types.{
  JobState, Time, err, is_terminal, job_running, job_terminal, non_terminal_states, state_in,
  waiting_states,
}

module _ (caller : Caller) (db : Db) (id : String) (job : Job) (allowed : caller.refused ≡ none)
    (found : find (λ j. in_scope j && str_eq j.id id) db.jobs ≡ some job) where
  -- A running job is never touched: for a caller whom the history can record, a pause, a resume, a
  -- delete, a reschedule to an instant and a change to a priority of at least 1 each fail with
  -- ErrJobRunning.
  pub running_is_refused :
      (at : Time) (priority : ℤ)
      → job.state ≡ JobState.running
      → (at == 0) ≡ false
      → leb_ℤ (pos 1) priority ≡ true
      → (pause_job caller db id ≡ err job_running)
        × (resume_job caller db id ≡ err job_running)
        × (delete_job caller db id ≡ err job_running)
        × (reschedule_job caller db id at ≡ err job_running)
        × (set_job_priority caller db id priority ≡ err job_running)
  unfolding pause_job resume_job delete_job reschedule_job set_job_priority control_job lock_job
      control_miss
  running_is_refused at priority ran t p = (
    rw (allowed, found, ran) refl,
    rw (allowed, found, ran) refl,
    rw (allowed, found, ran) refl,
    rw (t, allowed, found, ran) refl,
    rw (p, allowed, found, ran) refl,
  )

  -- A finished job is never revived or moved but by a retry: for a caller whom the history can
  -- record, a pause, a resume, a cancel, a reschedule to an instant and a change to a priority of at
  -- least 1 each fail with ErrJobTerminal.
  pub terminal_is_refused :
      (at : Time) (priority : ℤ)
      → is_terminal job.state ≡ true
      → (at == 0) ≡ false
      → leb_ℤ (pos 1) priority ≡ true
      → (pause_job caller db id ≡ err job_terminal)
        × (resume_job caller db id ≡ err job_terminal)
        × (cancel_job caller db id ≡ err job_terminal)
        × (reschedule_job caller db id at ≡ err job_terminal)
        × (set_job_priority caller db id priority ≡ err job_terminal)
  unfolding pause_job resume_job cancel_job reschedule_job set_job_priority control_job lock_job
      control_miss
  terminal_is_refused at priority over t p =
      let w = waiting job.state over in
      let m = missed job.state over in
      (
        rw (allowed, found, w) (rw m refl),
        rw (allowed, found, w) (rw m refl),
        rw (allowed, found, pending job.state over) (rw m refl),
        rw (t, allowed, found, w) (rw m refl),
        rw (p, allowed, found, w) (rw m refl),
      )
    where
      waiting : (s : JobState) → is_terminal s ≡ true → state_in s waiting_states ≡ false
      waiting s h = ground arith

      pending : (s : JobState) → is_terminal s ≡ true → state_in s non_terminal_states ≡ false
      pending s h = ground arith

      missed : (s : JobState) → is_terminal s ≡ true → control_miss s ≡ job_terminal
      missed s h = ground arith
