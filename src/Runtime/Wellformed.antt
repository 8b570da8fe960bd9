-- ===== src/Runtime/Wellformed.antt =====
-- About every jobs table that the runtime can reach.
use go_flywheel.Controls.{delete_job, pause_job, reschedule_job, resume_job, set_job_priority}
use go_flywheel.Controls.Retry.{cancel_job, retry_job}
use go_flywheel.Controls.Retry.Safe.{cancel_job-TableOk, retry_job-TableOk}
use go_flywheel.Controls.Safe.{
  delete_job-TableOk, pause_job-TableOk, reschedule_job-TableOk, resume_job-TableOk,
  set_job_priority-TableOk,
}
use go_flywheel.Driver.Claim.{claims_before}
use go_flywheel.Driver.Claim.Exclusive.{dequeue-TableOk}
use go_flywheel.Driver.Claim.Renew.{renew_lease-TableOk}
use go_flywheel.Driver.Finalize.{insert_run_stub}
use go_flywheel.Driver.Finalize.Safe.{finalize_keeps_table}
use go_flywheel.Driver.Sweep.Batch.{sweep_batch}
use go_flywheel.Driver.Sweep.Batch.Ends.{SweepLaws}
use go_flywheel.Driver.Sweep.Batch.Safe.{sweep_batch-TableOk}
use go_flywheel.Insert.Client.Safe.{insert_keeps_table}
use go_flywheel.Rows.{Db}
use go_flywheel.Runtime.{
  Commit, Reach, Setting, after, begins, cancels, claims, deletes, finalizes, fresh, inserts,
  pauses, renews, reprioritizes, reschedules, resumes, retries, sweeps,
}
use go_flywheel.Store.Ids.{OrderLaws}
use go_flywheel.Store.Wf.{TableOk}
use go_flywheel.Types.{OnOk-at}

-- What a setting relies on.
pub record SettingLaws (s : Setting) : Type 0 where
  pub claims_sorted : OrderLaws claims_before s.order
  pub sweeps_sorted : SweepLaws s.sorts

module _ (s : Setting) (laws : SettingLaws s) where
  Commit-TableOk : (db d : Db) → Commit s db d → TableOk db.jobs → TableOk d.jobs
  unfolding insert_run_stub
  Commit-TableOk db d (inserts c kind payload opts source slug out e) w =
      insert_keeps_table c db kind payload opts source slug (d, out) w e
  Commit-TableOk db d (claims c q e) w = rw e (dequeue-TableOk s.order laws.claims_sorted c db q w)
  Commit-TableOk db d (renews now id token until e) w =
      rw e (renew_lease-TableOk now db id token until w)
  Commit-TableOk db d (begins run_id raw at class exec_id e) w = rw e w
  Commit-TableOk db d (finalizes c raw run_id result work_err at out e) w =
      finalize_keeps_table c s.options db raw run_id result work_err at (d, out) w e
  Commit-TableOk db d (sweeps c now limit swept e) w =
      OnOk-at (λ x. TableOk x.0.jobs) (sweep_batch s.sorts c s.options now limit db) (d, swept)
        (sweep_batch-TableOk s.sorts laws.sweeps_sorted.by_lease s.options now c limit db w) e
  Commit-TableOk db d (reschedules caller id at e) w =
      OnOk-at (λ x. TableOk x.jobs) (reschedule_job caller db id at) d
        (reschedule_job-TableOk caller db id at w) e
  Commit-TableOk db d (reprioritizes caller id priority e) w =
      OnOk-at (λ x. TableOk x.jobs) (set_job_priority caller db id priority) d
        (set_job_priority-TableOk caller db id priority w) e
  Commit-TableOk db d (pauses caller id e) w =
      OnOk-at (λ x. TableOk x.jobs) (pause_job caller db id) d (pause_job-TableOk caller db id w) e
  Commit-TableOk db d (resumes caller id e) w =
      OnOk-at (λ x. TableOk x.jobs) (resume_job caller db id) d (resume_job-TableOk caller db id w)
        e
  Commit-TableOk db d (cancels caller id e) w =
      OnOk-at (λ x. TableOk x.jobs) (cancel_job caller db id) d (cancel_job-TableOk caller db id w)
        e
  Commit-TableOk db d (retries caller id o e) w =
      OnOk-at (λ x. TableOk x.jobs) (retry_job caller db id o) d
        (retry_job-TableOk caller db id o w) e
  Commit-TableOk db d (deletes caller id e) w =
      OnOk-at (λ x. TableOk x.jobs) (delete_job caller db id) d (delete_job-TableOk caller db id w)
        e

  -- For every ORDER BY that keeps the rows and every sort that keeps their number, every jobs table
  -- that a database reaches from an empty one, by inserts, claims, renewals, run starts, finalizes,
  -- sweep batches and controls of single jobs in any order, is well formed: tokens and leases exactly
  -- on running rows, finalization times exactly on terminal ones, whole barriers, and no two rows that
  -- conflict under the unique indexes.
  pub Reach-TableOk : (d : Db) → Reach s d → TableOk d.jobs
  Reach-TableOk d fresh = record { rows = tt; unique = tt }
  Reach-TableOk d (after db _ before step) = Commit-TableOk db d step (Reach-TableOk db before)
