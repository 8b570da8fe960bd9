-- ===== src/Runtime.antt =====
-- The runtime as a whole: the statements that clients, runners, the sweeper and operators make, one
-- transaction at a time, in any order and by any process.
pub mod Lifecycle
pub mod Moves
pub mod Attempts
pub mod Retries
pub mod Reclaims
pub mod Stays
pub mod Wellformed
use go_flywheel.Base.{List, Option, String, [], ℕ, ◌≡◌}
use go_flywheel.Base.Int.{ℤ}
use go_flywheel.Controls.{
  Caller, delete_job, pause_job, reschedule_job, resume_job, set_job_priority,
}
use go_flywheel.Controls.Retry.{RetryOpts, cancel_job, retry_job}
use go_flywheel.Driver.Claim.{ClaimRequest, dequeue, renew_lease}
use go_flywheel.Driver.Finalize.{FinalizeOutcome, finalize, insert_run_stub}
use go_flywheel.Driver.Opts.{DriverOpts}
use go_flywheel.Driver.Sweep.{SweepLib, SweptJob}
use go_flywheel.Driver.Sweep.Batch.{sweep_batch}
use go_flywheel.Env.{Ctx}
use go_flywheel.Insert.Client.{Inserted, insert}
use go_flywheel.Insert.Row.{InsertOpts}
use go_flywheel.Rows.{Db, Job}
use go_flywheel.Types.{Bytes, InsertSource, Time, ok}
use go_flywheel.Work.{RawJob, WorkErr, WorkResult}

-- What the database and Go's libraries sort by, and the options of the driver.
pub record Setting : Type 0 where
  pub order : List Job → List Job
  pub sorts : SweepLib
  pub options : DriverOpts

-- One committed transaction. A context of its own gives each its clock.
pub data Commit (s : Setting) (db d : Db) : Type 0 where
  inserts :
      (c : Ctx) (kind : String) (payload : Bytes) (opts : InsertOpts) (source : InsertSource)
      (slug : String) (out : Inserted)
      → insert c db kind payload opts source slug ≡ ok (d, out)
      → Commit s db d
  claims : (c : Ctx) (q : ClaimRequest) → d ≡ (dequeue s.order c db q).0 → Commit s db d
  renews :
      (now : Time) (id token : String) (until : Time)
      → d ≡ (renew_lease now db id token until).0
      → Commit s db d
  begins :
      (run_id : String) (raw : RawJob) (at : Time) (class exec_id : String)
      → d ≡ insert_run_stub db run_id raw at class exec_id
      → Commit s db d
  finalizes :
      (c : Ctx) (raw : RawJob) (run_id : String) (result : WorkResult) (work_err : Option WorkErr)
      (at : Time) (out : FinalizeOutcome)
      → finalize c s.options db raw run_id result work_err at ≡ ok (d, out)
      → Commit s db d
  sweeps :
      (c : Ctx) (now : Time) (limit : ℕ) (swept : List SweptJob)
      → sweep_batch s.sorts c s.options now limit db ≡ ok (d, swept)
      → Commit s db d
  reschedules :
      (caller : Caller) (id : String) (at : Time)
      → reschedule_job caller db id at ≡ ok d
      → Commit s db d
  reprioritizes :
      (caller : Caller) (id : String) (priority : ℤ)
      → set_job_priority caller db id priority ≡ ok d
      → Commit s db d
  pauses : (caller : Caller) (id : String) → pause_job caller db id ≡ ok d → Commit s db d
  resumes : (caller : Caller) (id : String) → resume_job caller db id ≡ ok d → Commit s db d
  cancels : (caller : Caller) (id : String) → cancel_job caller db id ≡ ok d → Commit s db d
  retries :
      (caller : Caller) (id : String) (o : RetryOpts)
      → retry_job caller db id o ≡ ok d
      → Commit s db d
  deletes : (caller : Caller) (id : String) → delete_job caller db id ≡ ok d → Commit s db d

abbrev pub empty_db : Db
empty_db = record { jobs = []; runs = []; finishes = []; audit = []; minted = 0 }

pub data Reach (s : Setting) : Db → Type 0 where
  fresh : Reach s empty_db
  after : (db d : Db) → Reach s db → Commit s db d → Reach s d
