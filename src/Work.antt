-- ===== src/Work.antt =====
-- internal/core/types.go: what a claim hands to the runner, and what a worker hands back.
use go_flywheel.Base.{ℕ, String, Bool, List, Option}
use go_flywheel.Base.Int.{ℤ}
use go_flywheel.Types.{Time, Duration, Bytes, ErrorClass}
use go_flywheel.Env.{Meta}

pub record RawJob : Type 0 where
  pub id : String
  pub kind : String
  pub queue : String
  pub args : Bytes
  pub attempt : ℕ
  pub max_attempts : ℤ
  pub timeout_ms : Option ℤ
  pub lease_token : String
  pub parent_job_id : Option String
  pub tags : List String
  pub created_at : Time
  pub scheduled_at : Time
  pub metadata : Bytes

-- What json.Marshal makes of a Go value: its encoding, or an error.
pub data Encoded : Type 0 where
  encoded : Bytes → Encoded
  unencodable : Encoded

pub record FollowUp : Type 0 where
  pub kind : String
  pub args : Encoded
  pub queue : String
  pub unique_key : String
  pub schedule_at : Option Time
  pub parent : Bool
  pub priority : ℤ
  pub executor_class : String
  pub tags : List String
  pub metadata : Meta

pub record Barrier : Type 0 where
  pub kind : String
  pub args : Encoded
  pub queue : String
  pub executor_class : String
  pub priority : ℤ

-- Result of types.go; `none` for a nil Output, Snooze or Barrier.
pub record WorkResult : Type 0 where
  pub output : Option Encoded
  pub snooze : Option Duration
  pub cancel : Bool
  pub follow_ups : List FollowUp
  pub barrier : Option Barrier
  pub cost_micros : ℤ

-- classifiedError of driver.go; an empty class is `none`.
pub record ClassifiedError : Type 0 where
  pub class : Option ErrorClass
  pub retry_delay : Duration

-- The error that finalizes an attempt: its text, and the classifiedError that errors.As finds in
-- its chain.
pub record WorkErr : Type 0 where
  pub message : Bytes
  pub classified : Option ClassifiedError
