-- ===== src/Runtime/Lifecycle.antt =====
-- About the life of a job in internal/core: the moves of its state that each kind of transaction
-- makes.
use go_flywheel.Base.{[], false, ◌∷◌}
use go_flywheel.Controls.{delete_job, pause_job, reschedule_job, resume_job, set_job_priority}
use go_flywheel.Controls.Retry.{cancel_job, retry_job, retry_states}
use go_flywheel.Driver.Finalize.{finalize, insert_run_stub}
use go_flywheel.Driver.Sweep.Batch.{sweep_batch}
use go_flywheel.Insert.Client.{insert}
use go_flywheel.Rows.{Db}
use go_flywheel.Runtime.{
  Commit, Setting, begins, cancels, claims, deletes, finalizes, inserts, pauses, renews,
  reprioritizes, reschedules, resumes, retries, sweeps,
}
use go_flywheel.Runtime.Attempts.{dequeue-Evolves, finalize-Evolves, renew_lease-Evolves}
use go_flywheel.Runtime.Moves.{
  adding, delete_job-Evolves, ended_states, moved, moving, only, pause_job-Evolves,
  reschedule_job-Evolves, resume_job-Evolves, set_job_priority-Evolves,
}
use go_flywheel.Runtime.Reclaims.{sweep_batch-Evolves}
use go_flywheel.Runtime.Retries.{cancel_job-Evolves, retry_job-Evolves}
use go_flywheel.Runtime.Stays.{insert-Stays}
use go_flywheel.Runtime.Wellformed.{SettingLaws}
use go_flywheel.Store.Evolves.{Effects, Evolves, Evolves-refl, stay}
use go_flywheel.Store.Wf.{TableOk}
use go_flywheel.Types.{
  JobState, OnOk-at, claimable_states, is_terminal, non_terminal_states, state_eq, state_eq_refl,
  waiting_states,
}

-- The life of a job: the effects that a committed transaction may have.
abbrev pub effects : (s : Setting) {db d : Db} → Commit s db d → Effects
effects s (inserts c kind payload opts source slug out e) = stay
effects s (claims c q e) = moving (moved claimable_states (only JobState.running))
effects s (renews now id token until e) = moving state_eq
effects s (begins run_id raw at class exec_id e) = moving state_eq
effects s (finalizes c raw run_id result work_err at out e) =
    adding (moved (only JobState.running) ended_states)
effects s (sweeps c now limit swept e) =
    adding (moved (only JobState.running) (JobState.available ∷ JobState.discarded ∷ []))
effects s (reschedules caller id at e) = moving state_eq
effects s (reprioritizes caller id priority e) = moving state_eq
effects s (pauses caller id e) = moving (moved waiting_states (only JobState.paused))
effects s (resumes caller id e) = moving (moved (only JobState.paused) (only JobState.available))
effects s (cancels caller id e) = adding (moved non_terminal_states (only JobState.cancelled))
effects s (retries caller id o e) = moving (moved (retry_states o) (only JobState.available))
effects s (deletes caller id e) = record { moves = state_eq; removes = is_terminal; adds = false }

module _ (s : Setting) (laws : SettingLaws s) where
  -- For every ORDER BY that keeps the rows and every sort that keeps their number, every committed
  -- transaction on a well-formed table (an insert, a claim, a renewal, a run start, a finalize, a
  -- sweep batch or a control of one job) moves the state of each job only as the life of a job allows
  -- for its kind, keeps the rows in place under their ids, removes rows only when it deletes, and then
  -- only finished ones, and adds rows only when it inserts, finalizes, sweeps or cancels.
  pub commits_follow_lifecycle :
      (db d : Db) (step : Commit s db d) → TableOk db.jobs → Evolves (effects s step) db.jobs d.jobs
  unfolding insert_run_stub
  commits_follow_lifecycle db d (inserts c kind payload opts source slug out e) w =
      OnOk-at (λ r. Evolves stay db.jobs r.0.jobs) (insert c db kind payload opts source slug)
        (d, out) (insert-Stays c db kind payload opts source slug) e
  commits_follow_lifecycle db d (claims c q e) w =
      rw e (dequeue-Evolves s.order laws.claims_sorted c db q w)
  commits_follow_lifecycle db d (renews now id token until e) w =
      rw e (renew_lease-Evolves now db id token until)
  commits_follow_lifecycle db d (begins run_id raw at class exec_id e) w =
      rw e (Evolves-refl (moving state_eq) state_eq_refl db.jobs)
  commits_follow_lifecycle db d (finalizes c raw run_id result work_err at out e) w =
      OnOk-at
        (λ r.
          Evolves (effects s (finalizes c raw run_id result work_err at out e)) db.jobs r.0.jobs)
        (finalize c s.options db raw run_id result work_err at) (d, out)
        (finalize-Evolves c s.options db raw run_id result work_err at) e
  commits_follow_lifecycle db d (sweeps c now limit swept e) w =
      OnOk-at (λ r. Evolves (effects s (sweeps c now limit swept e)) db.jobs r.0.jobs)
        (sweep_batch s.sorts c s.options now limit db) (d, swept)
        (sweep_batch-Evolves s.sorts laws.sweeps_sorted.by_lease s.options now c limit db w) e
  commits_follow_lifecycle db d (reschedules caller id at e) w =
      OnOk-at (λ x. Evolves (moving state_eq) db.jobs x.jobs) (reschedule_job caller db id at) d
        (reschedule_job-Evolves caller db id at) e
  commits_follow_lifecycle db d (reprioritizes caller id priority e) w =
      OnOk-at (λ x. Evolves (moving state_eq) db.jobs x.jobs)
        (set_job_priority caller db id priority) d (set_job_priority-Evolves caller db id priority)
        e
  commits_follow_lifecycle db d (pauses caller id e) w =
      OnOk-at (λ x. Evolves (effects s (pauses caller id e)) db.jobs x.jobs)
        (pause_job caller db id) d (pause_job-Evolves caller db id) e
  commits_follow_lifecycle db d (resumes caller id e) w =
      OnOk-at (λ x. Evolves (effects s (resumes caller id e)) db.jobs x.jobs)
        (resume_job caller db id) d (resume_job-Evolves caller db id) e
  commits_follow_lifecycle db d (cancels caller id e) w =
      OnOk-at (λ x. Evolves (effects s (cancels caller id e)) db.jobs x.jobs)
        (cancel_job caller db id) d (cancel_job-Evolves caller db id) e
  commits_follow_lifecycle db d (retries caller id o e) w =
      OnOk-at (λ x. Evolves (effects s (retries caller id o e)) db.jobs x.jobs)
        (retry_job caller db id o) d (retry_job-Evolves caller db id o) e
  commits_follow_lifecycle db d (deletes caller id e) w =
      OnOk-at (λ x. Evolves (effects s (deletes caller id e)) db.jobs x.jobs)
        (delete_job caller db id) d (delete_job-Evolves caller db id w) e
