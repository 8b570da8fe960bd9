-- ===== src/Driver/Finalize/Fence.antt =====
-- About Finalize of internal/core/driver.go where the claim was lost.
use go_flywheel.Base.{
  Bool, List, Option, String, any, ap, false, find, none, refl, some, true, ℕ, ◌≡◌,
}
use go_flywheel.Driver.Finalize.{
  FinalizeOutcome, advance, barrier_columns, finalize, finalize_run_row, holds_claim,
  marshal_run_output, run_is, settle, state_of, with_barrier,
}
use go_flywheel.Driver.Opts.{DriverOpts, max_output_bytes}
use go_flywheel.Env.{Ctx, Lib}
use go_flywheel.Plan.{job_finalize_update, plan_finalize}
use go_flywheel.Rows.{Db, Job, Run}
use go_flywheel.Store.Update.{update_where_none}
use go_flywheel.Types.{Bytes, Time, ok}
use go_flywheel.Work.{Encoded, RawJob, WorkErr, WorkResult, encoded, unencodable}

abbrev pub encodes : Option Encoded → Bool
encodes (some unencodable) = false
encodes _ = true

marshal_total :
    (lib : Lib) (n : ℕ) (o : Option Encoded)
    → encodes o ≡ true
    → (b : Option Bytes) × (marshal_run_output lib n o ≡ ok b)
unfolding marshal_run_output
marshal_total lib n none h = (none, refl)
marshal_total lib n (some (encoded b)) h = (_, refl)
marshal_total lib n (some unencodable) h = cc

no_columns :
    (c : Ctx) (o : DriverOpts) (table : List Job) (raw : RawJob) (result : WorkResult) (b : Bool)
    → result.barrier ≡ none
    → barrier_columns c o table raw result b ≡ ok none
unfolding barrier_columns
no_columns c o table raw result false h = refl
no_columns c o table raw result true h = rw (h, barrier_columns)

-- An attempt whose run row is there and whose claim no row holds any more (swept, cancelled,
-- retried, claimed anew or gone) still finalizes, for a result whose output encodes and that
-- declares no barrier: the jobs table and the ids minted stay as they were, and the outcome says
-- that the claim was superseded, enqueued nothing and reports the state that the job really has.
pub superseded_finalize_keeps_jobs :
    (c : Ctx) (o : DriverOpts) (db : Db) (raw : RawJob) (run_id : String) (result : WorkResult)
    (work_err : Option WorkErr) (at : Time) (stub : Run)
    → find (run_is run_id) db.runs ≡ some stub
    → any (holds_claim raw.id raw.lease_token) db.jobs ≡ false
    → result.barrier ≡ none
    → encodes result.output ≡ true
    → (r : Db × FinalizeOutcome) × (finalize c o db raw run_id result work_err at ≡ ok r)
      × (r.0.jobs ≡ db.jobs)
      × (r.0.minted ≡ db.minted)
      × (r.1.superseded ≡ true)
      × (r.1.enqueued_children ≡ 0)
      × (r.1.scheduled_at ≡ none)
      × (r.1.state ≡ state_of raw.id db.jobs)
unfolding finalize finalize_run_row
superseded_finalize_keeps_jobs c o db raw run_id result work_err at stub found lost plain enc =
    let plan = plan_finalize c.lib raw result work_err at in
    let advanced = advance plan at none raw db.jobs in
    let (out, e) = marshal_total c.lib (max_output_bytes o) result.output enc in
    let same : advanced ≡ db.jobs =
      update_where_none (holds_claim raw.id raw.lease_token)
        (λ j. with_barrier none (job_finalize_update plan at j)) db.jobs lost in
    (
      settle run_id plan result work_err at stub true (state_of raw.id advanced)
          (record db { jobs = advanced }, 0) out,
      rw (found, no_columns c o db.jobs raw result plan.follow_ups plain, lost, e),
      same,
      refl,
      refl,
      refl,
      refl,
      ap (state_of raw.id) same,
    )
