-- ===== src/Rows.antt =====
-- internal/core/rows.go: the rows of the tables `jobs`, `job_runs`, `job_run_finishes` and
-- `job_audit`, and the database that holds them. A JSON column that the runtime only passes on is a
-- list of bytes; `tags` and `barrier_spec` hold what their JSON encodes.
use go_flywheel.Base.{Bool, List, Option, String, false, is_none, true, ℕ}
use go_flywheel.Base.Int.{ℤ}
use go_flywheel.Types.{Bytes, ErrorClass, JobState, RunOutcome, Time, is_terminal}

-- barrierSpec of driver.go; `timeout_ms` and `max_attempts` are 0 when the JSON omits them.
pub record BarrierSpec : Type 0 where
  pub args : Bytes
  pub queue : String
  pub executor_class : String
  pub priority : ℤ
  pub max_attempts : ℤ
  pub timeout_ms : ℤ
  pub tags : List String

pub record Job : Type 0 where
  pub id : String
  pub created_at : Time
  pub updated_at : Time
  pub metadata : Bytes
  pub kind : String
  pub queue : String
  pub args : Bytes
  pub priority : ℤ
  pub state : JobState
  pub attempt : ℕ
  pub max_attempts : ℤ
  pub timeout_ms : Option ℤ
  pub scheduled_at : Time
  pub leased_until : Option Time
  pub lease_token : Option String
  pub unique_key : Option String
  pub unique_active_key : Option String
  pub parent_job_id : Option String
  pub executor_class : String
  pub finalized_at : Option Time
  pub barrier_kind : Option String
  pub barrier_spec : Option BarrierSpec
  pub tags : List String
  pub deleted_at : Option Time

pub record Run : Type 0 where
  pub id : String
  pub job_id : String
  pub attempt : ℕ
  pub kind : String
  pub queue : String
  pub executor_class : String
  pub executor_id : String
  pub started_at : Time
  pub finished_at : Option Time
  pub outcome : RunOutcome
  pub error_class : Option ErrorClass
  pub error_message : Option Bytes
  pub output : Option Bytes
  pub duration_ms : Option ℤ
  pub queue_wait_ms : Option ℕ
  pub cost_micros : Option ℤ
  pub enqueued_children : ℕ
  pub job_state : Option JobState
  pub superseded : Bool
  pub created_at : Time

pub data AuditAction : Type 0 where
  retried cancelled paused resumed rescheduled reprioritized deleted limits_set : AuditAction

-- The columns of job_audit that the runtime decides; the actor's fields are passed through.
pub record Audit : Type 0 where
  pub created_at : Time
  pub target_id : String
  pub action : AuditAction
  pub from_state : Option JobState

pub record Finish : Type 0 where
  pub finished_at : Time
  pub run_id : String

-- `minted` counts the ids handed out by `models.NewID`.
pub record Db : Type 0 where
  pub jobs : List Job
  pub runs : List Run
  pub finishes : List Finish
  pub audit : List Audit
  pub minted : ℕ

-- GORM's soft-delete scope, which every `Model(&jobRow{})` statement carries.
abbrev pub in_scope : Job → Bool
in_scope j = is_none j.deleted_at

-- The state condition of the index jobs_unique_active_key.
abbrev pub is_live : Job → Bool
is_live j = elim (is_terminal j.state) [ true ↦ false | false ↦ true ]
