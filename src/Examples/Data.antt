-- ===== src/Examples/Data.antt =====
-- A runtime with two jobs: a parent that succeeded with a barrier, and its one child, running.
use go_flywheel.Base.{String, [], false, if◌then◌else◌, none, refl, some, true, ◌==◌, ◌∷◌}
use go_flywheel.Base.Int.{pos}
use go_flywheel.Driver.Claim.{ClaimRequest, raw_from_row}
use go_flywheel.Driver.Opts.{DriverOpts}
use go_flywheel.Env.{Ctx, Lib}
use go_flywheel.Insert.Conflict.{clash}
use go_flywheel.Rows.{BarrierSpec, Db, Job, Run}
use go_flywheel.Store.Wf.{TableOk}
use go_flywheel.Types.{JobState, RunOutcome}
use go_flywheel.Work.{FollowUp, RawJob, WorkErr, WorkResult, encoded}

-- The third-party functions, as plain ones.
abbrev pub plain_lib : Lib
plain_lib = record {
  exponential = λ base top n. base;
  new_id = λ n. if n == 0 then "first" else (if n == 1 then "second" else "later");
  truncated_output = λ n head. head;
  valid_utf8 = λ s. true;
  has_control = λ s. false;
  byte_len = λ s. 1;
  request_metadata = λ s. [];
  marshal_meta = λ m. some [];
  encode_string = λ s. [];
}

abbrev pub context : Ctx
context = record {
  lib = plain_lib;
  now = 2000;
  request_id = "";
  defaults_for = λ kind. none;
  hook = λ info. [];
}

abbrev pub options : DriverOpts
options = record {
  sweep_batch_size = pos 2;
  follow_up_chunk_size = pos 0;
  follow_up_limit = pos 0;
  max_output_bytes = pos 0;
  barrier_max_children = pos 0;
  max_crashes = pos 0;
}

abbrev pub barrier_spec : BarrierSpec
barrier_spec = record {
  args = [];
  queue = "default";
  executor_class = "";
  priority = pos 1;
  max_attempts = pos 3;
  timeout_ms = pos 0;
  tags = [];
}

abbrev pub job : String → JobState → Job
job id state = record {
  id = id;
  created_at = 1000;
  updated_at = 1000;
  metadata = [];
  kind = "resize";
  queue = "default";
  args = [];
  priority = pos 1;
  state = state;
  attempt = 1;
  max_attempts = pos 3;
  timeout_ms = none;
  scheduled_at = 1000;
  leased_until = none;
  lease_token = none;
  unique_key = none;
  unique_active_key = none;
  parent_job_id = none;
  executor_class = "";
  finalized_at = none;
  barrier_kind = none;
  barrier_spec = none;
  tags = [];
  deleted_at = none;
}

abbrev pub parent_row : Job
parent_row = record (job "parent" JobState.succeeded) {
  finalized_at = some 1500;
  barrier_kind = some "collect";
  barrier_spec = some barrier_spec;
}

abbrev pub child_row : Job
child_row = record (job "child" JobState.running) {
  leased_until = some 1800;
  lease_token = some "token";
  parent_job_id = some "parent";
}

abbrev pub waiting_row : Job
waiting_row = job "waiting" JobState.available

abbrev pub child_run : Run
child_run = record {
  id = "run";
  job_id = "child";
  attempt = 1;
  kind = "resize";
  queue = "default";
  executor_class = "";
  executor_id = "node";
  started_at = 1200;
  finished_at = none;
  outcome = RunOutcome.started;
  error_class = none;
  error_message = none;
  output = none;
  duration_ms = none;
  queue_wait_ms = none;
  cost_micros = none;
  enqueued_children = 0;
  job_state = none;
  superseded = false;
  created_at = 1200;
}

abbrev pub family : Db
family = record {
  jobs = parent_row ∷ child_row ∷ waiting_row ∷ [];
  runs = child_run ∷ [];
  finishes = [];
  audit = [];
  minted = 0;
}

abbrev pub child_raw : RawJob
child_raw = raw_from_row child_row 1 "token"

abbrev pub child_spec : FollowUp
child_spec = record {
  kind = "publish";
  args = encoded [];
  queue = "";
  unique_key = "once";
  schedule_at = none;
  parent = true;
  priority = pos 0;
  executor_class = "";
  tags = [];
  metadata = [];
}

abbrev pub done : WorkResult
done = record {
  output = none;
  snooze = none;
  cancel = false;
  follow_ups = [];
  barrier = none;
  cost_micros = pos 0;
}

abbrev pub spawning : WorkResult
spawning = record done { follow_ups = child_spec ∷ [] }

abbrev pub failure : WorkErr
failure = record { message = []; classified = none }

abbrev pub request : ClaimRequest
request = record {
  queues = "default" ∷ [];
  class = "";
  claim_any = true;
  limit = 5;
  lease = pos 500;
}

pub family-TableOk : TableOk family.jobs
unfolding clash
family-TableOk = record {
  rows = (
    record { leased = refl; lease_ends = refl; finalized = refl; barrier_whole = refl },
    (
      record { leased = refl; lease_ends = refl; finalized = refl; barrier_whole = refl },
      (record { leased = refl; lease_ends = refl; finalized = refl; barrier_whole = refl }, tt),
    ),
  );
  unique = (refl, (refl, (refl, tt)));
}

-- The family once its child has ended: the barrier may fire.
abbrev pub ended_family : Db
ended_family = record family {
  jobs =
      parent_row
      ∷ record (job "child" JobState.cancelled) {
        parent_job_id = some "parent";
        finalized_at = some 1900;
      }
      ∷ [];
}

pub ended_family-TableOk : TableOk ended_family.jobs
unfolding clash
ended_family-TableOk = record {
  rows = (
    record { leased = refl; lease_ends = refl; finalized = refl; barrier_whole = refl },
    (record { leased = refl; lease_ends = refl; finalized = refl; barrier_whole = refl }, tt),
  );
  unique = (refl, (refl, tt));
}
