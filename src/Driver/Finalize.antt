-- ===== src/Driver/Finalize.antt =====
-- Finalize of internal/core/driver.go, with the run row that it completes: InsertRunStub,
-- runFinalizeUpdate, marshalRunOutput and finalizeRunRow.
pub mod Fence
pub mod Safe
use go_flywheel.Base.{
  Bool, List, Option, String, [], any, false, find, if◌then◌else◌, leb, length, none, not,
  opt_str_eq, select, some, str_eq, suc, true, update_where, ℕ, ◌&&◌, ◌++◌, ◌-◌, ◌/◌, ◌==◌, ◌∷◌,
}
use go_flywheel.Base.Int.{negsuc, pos, pos_part, ℤ}
use go_flywheel.Driver.Barrier.{
  by_id, fire_barrier_if_complete, resolve_barrier_columns, validate_barrier,
}
use go_flywheel.Driver.FollowUps.{insert_follow_ups}
use go_flywheel.Driver.Opts.{DriverOpts, barrier_max_children, max_output_bytes}
use go_flywheel.Env.{Ctx, Lib}
use go_flywheel.Plan.{FinalizePlan, job_finalize_update, plan_finalize}
use go_flywheel.Rows.{BarrierSpec, Db, Finish, Job, Run, in_scope}
use go_flywheel.Text.{truncate}
use go_flywheel.Types.{
  Bytes, Duration, ErrorClass, JobState, Result, RunOutcome, Time, encode_failed, err, is_terminal,
  ok, record_not_found, state_eq, sub_time, ◌>>=◌, ◌>>◌,
}
use go_flywheel.Work.{Encoded, RawJob, WorkErr, WorkResult, encoded, unencodable}

abbrev pub max_error_message : ℕ
max_error_message = 4096

abbrev pub truncated_output_head : ℕ
truncated_output_head = 1024

-- `d.Milliseconds()`, which rounds towards zero.
abbrev pub milliseconds : Duration → ℤ
milliseconds (pos n) = pos (n / 1000000)
milliseconds (negsuc n) = if suc n / 1000000 == 0 then pos 0 else negsuc (suc n / 1000000 - 1)

-- queueWaitMs: no wait for a zero scheduled_at, and never a negative one.
unfoldable pub queue_wait_ms : Time → Time → Option ℕ
queue_wait_ms scheduled_at started_at =
    if scheduled_at == 0
    then none
    else some (pos_part (milliseconds (sub_time started_at scheduled_at)))

unfoldable pub insert_run_stub : Db → String → RawJob → Time → String → String → Db
unfolding queue_wait_ms
insert_run_stub db run_id raw started_at class exec_id = record db { runs = db.runs ++ stub ∷ [] }
  where
    stub : Run
    stub = record {
      id = run_id;
      job_id = raw.id;
      attempt = raw.attempt;
      kind = raw.kind;
      queue = raw.queue;
      executor_class = class;
      executor_id = exec_id;
      started_at = started_at;
      finished_at = none;
      outcome = RunOutcome.started;
      error_class = none;
      error_message = none;
      output = none;
      duration_ms = none;
      queue_wait_ms = queue_wait_ms raw.scheduled_at started_at;
      cost_micros = none;
      enqueued_children = 0;
      job_state = none;
      superseded = false;
      created_at = started_at;
    }

abbrev bounded_output : Lib → ℕ → Bytes → Bytes
bounded_output lib max_bytes out =
    if leb (length out) max_bytes
    then out
    else lib.truncated_output (length out) (truncate out truncated_output_head)

-- marshalRunOutput
unfoldable pub marshal_run_output : Lib → ℕ → Option Encoded → Result (Option Bytes)
marshal_run_output lib max_bytes none = ok none
marshal_run_output lib max_bytes (some unencodable) = err encode_failed
marshal_run_output lib max_bytes (some (encoded out)) = ok (some (bounded_output lib max_bytes out))

abbrev or_keep {ℓ} : {A : Type ℓ} → Option A → Option A → Option A
or_keep none old = old
or_keep (some a) old = some a

abbrev stored_message : Option WorkErr → Option Bytes
stored_message none = none
stored_message (some e) = some (truncate e.message max_error_message)

-- runFinalizeUpdate, written on the run's row. COALESCE keeps a finish time that the row has.
unfoldable pub run_finalize_update :
    FinalizePlan → WorkResult → Option WorkErr → Time → ℤ → ℕ → Bool → Option Bytes → Run → Run
run_finalize_update plan result work_err finished_at duration enqueued superseded output r =
    record r {
      outcome = plan.run_outcome;
      finished_at = or_keep r.finished_at (some finished_at);
      duration_ms = some duration;
      cost_micros = some result.cost_micros;
      enqueued_children = enqueued;
      superseded = superseded;
      job_state = if superseded then r.job_state else some plan.job_state;
      error_class = or_keep plan.error_class r.error_class;
      error_message = or_keep (stored_message work_err) r.error_message;
      output = or_keep output r.output;
    }

abbrev pub run_is : String → Run → Bool
run_is id r = str_eq r.id id

abbrev same_finish : Finish → Finish → Bool
same_finish a b = a.finished_at == b.finished_at && str_eq a.run_id b.run_id

-- finishLogInsert for one run: its finish, unless the log has it.
abbrev log_one : List Finish → String → Option Time → List Finish
log_one log run_id none = log
log_one log run_id (some t) =
    let row : Finish = record { finished_at = t; run_id = run_id } in
    if any (same_finish row) log then log else log ++ row ∷ []

pub log_finishes : List Finish → List Run → List Finish
log_finishes log [] = log
log_finishes log (r ∷ rs) = log_finishes (log_one log r.id r.finished_at) rs

-- finalizeRunRow: the update and the log entry of the run.
unfoldable pub finalize_run_row : Db → String → (Run → Run) → Db
unfolding log_finishes
finalize_run_row db run_id f =
    let runs = update_where (run_is run_id) f db.runs in
    record db { runs = runs; finishes = log_finishes db.finishes (select (run_is run_id) runs) }

-- `state` is `none` for a superseded job whose row is gone.
pub record FinalizeOutcome : Type 0 where
  pub superseded : Bool
  pub state : Option JobState
  pub run_outcome : RunOutcome
  pub error_class : Option ErrorClass
  pub scheduled_at : Option Time
  pub enqueued_children : ℕ

-- The fence of a claim: the row still running under the claim's token.
abbrev pub holds_claim : String → String → Job → Bool
holds_claim id token j =
    in_scope j
    && str_eq j.id id
    && state_eq j.state JobState.running
    && opt_str_eq j.lease_token (some token)

abbrev pub or_run_missing : Option Run → Result Run
or_run_missing none = err record_not_found
or_run_missing (some r) = ok r

-- The barrier columns that a successful finalize adds to its update.
pub barrier_columns :
    Ctx
    → DriverOpts
    → List Job
    → RawJob
    → WorkResult
    → Bool
    → Result (Option (String × BarrierSpec))
barrier_columns c o table raw result false = ok none
barrier_columns c o table raw result true = elim result.barrier [
  | none ↦ ok none
  | some b ↦ (do
    validate_barrier b result.follow_ups (barrier_max_children o)
    columns ← resolve_barrier_columns c table raw b
    ok (some columns))
]

unfoldable pub with_barrier : Option (String × BarrierSpec) → Job → Job
with_barrier none j = j
with_barrier (some (kind, spec)) j = record j { barrier_kind = some kind; barrier_spec = some spec }

-- The statement that advances the job, under the fence.
unfoldable pub advance :
    FinalizePlan → Time → Option (String × BarrierSpec) → RawJob → List Job → List Job
unfolding with_barrier
advance plan finished_at columns raw table =
    update_where (holds_claim raw.id raw.lease_token)
      (λ j. with_barrier columns (job_finalize_update plan finished_at j)) table

abbrev pub state_of : String → List Job → Option JobState
state_of id table = elim (find (by_id id) table) [ none ↦ none | some j ↦ some j.state ]

abbrev pub fired_db : Result (Db × Bool) → Result Db
fired_db (ok (db, fired)) = ok db
fired_db (err e) = err e

unfoldable pub fire_parent : Ctx → Db → RawJob → FinalizePlan → Result Db
fire_parent c db raw plan = elim raw.parent_job_id [
  | none ↦ ok db
  | some parent ↦
      if is_terminal plan.job_state
      then fired_db (fire_barrier_if_complete c db parent raw.id)
      else ok db
]

-- What follows the advance when the claim held: the children, then the parent's barrier.
unfoldable pub spawn : Ctx → DriverOpts → Db → RawJob → WorkResult → FinalizePlan → Result (Db × ℕ)
spawn c o db raw result plan = do
  (db', enqueued) ←
      (if plan.follow_ups then insert_follow_ups c o db result.follow_ups raw.id else ok (db, 0))
  db'' ← fire_parent c db' raw plan
  ok (db'', enqueued)

pub outcome_of : FinalizePlan → Bool → Option JobState → ℕ → FinalizeOutcome
outcome_of plan lost current enqueued = record {
  superseded = lost;
  state = if lost then current else some plan.job_state;
  run_outcome = plan.run_outcome;
  error_class = plan.error_class;
  scheduled_at = if lost then none else plan.scheduled_at;
  enqueued_children = enqueued;
}

-- The end of the transaction: the run row, and the outcome that Finalize returns.
unfoldable pub settle :
    String
    → FinalizePlan
    → WorkResult
    → Option WorkErr
    → Time
    → Run
    → Bool
    → Option JobState
    → Db × ℕ
    → Option Bytes
    → Db × FinalizeOutcome
unfolding outcome_of
settle run_id plan result work_err finished_at stub lost current (db, enqueued) output =
    let duration = milliseconds (sub_time finished_at stub.started_at) in
    (
      finalize_run_row db run_id
          (run_finalize_update plan result work_err finished_at duration enqueued lost output),
      outcome_of plan lost current enqueued,
    )

unfoldable pub finalize :
    Ctx
    → DriverOpts
    → Db
    → RawJob
    → String
    → WorkResult
    → Option WorkErr
    → Time
    → Result (Db × FinalizeOutcome)
unfolding advance spawn barrier_columns settle
finalize c o db raw run_id result work_err finished_at = do
  let plan = plan_finalize c.lib raw result work_err finished_at
  stub ← or_run_missing (find (run_is run_id) db.runs)
  columns ← barrier_columns c o db.jobs raw result plan.follow_ups
  let lost = not (any (holds_claim raw.id raw.lease_token) db.jobs)
  let advanced = record db { jobs = advance plan finished_at columns raw db.jobs }
  spawned ← (if lost then ok (advanced, 0) else spawn c o advanced raw result plan)
  output ← marshal_run_output c.lib (max_output_bytes o) result.output
  ok (
      settle run_id plan result work_err finished_at stub lost (state_of raw.id advanced.jobs)
        spawned output)
