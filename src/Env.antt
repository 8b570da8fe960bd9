-- ===== src/Env.antt =====
-- What the runtime takes from outside the repository, and what a call finds in its context.
use go_flywheel.Base.{ℕ, String, Bool, List, Option}
use go_flywheel.Base.Int.{ℤ}
use go_flywheel.Types.{Time, Duration, Bytes, InsertSource}

-- A JSON object: its keys with the encoding of each value.
abbrev pub Meta : Type 0
Meta = List (String × Bytes)

-- Functions of go-foundation and of Go's standard library.
pub record Lib : Type 0 where
  pub exponential : Duration → Duration → ℕ → Duration  -- backoff.Exponential
  pub new_id : ℕ → String  -- models.NewID, the n-th call
  pub truncated_output : ℕ → Bytes → Bytes  -- json.Marshal of a TruncatedOutput
  pub valid_utf8 : String → Bool  -- utf8.ValidString
  pub has_control : String → Bool  -- strings.ContainsFunc with unicode.IsControl
  pub byte_len : String → ℕ  -- len
  pub request_metadata : String → Bytes  -- ctxutil.RequestIDToMetadata(nil, id)
  pub marshal_meta : Meta → Option Bytes  -- json.Marshal of a merged object
  pub encode_string : String → Bytes  -- json.Marshal of a string

-- kindDefaults of registry.go.
pub record KindDefaults : Type 0 where
  pub queue : String
  pub priority : ℤ
  pub max_attempts : ℤ
  pub timeout : Duration
  pub executor_class : String
  pub tags : List String

-- InsertInfo of insert_stamp.go.
pub record InsertInfo : Type 0 where
  pub kind : String
  pub queue : String
  pub source : InsertSource
  pub spawned_by : String
  pub parent_job_id : String
  pub periodic_slug : String

-- The context of a call: its clock, its request id, the registry that `kindDefaultsFrom` reads and
-- the hook that `insertHookFrom` finds (a nil hook answers with no keys).
pub record Ctx : Type 0 where
  pub lib : Lib
  pub now : Time
  pub request_id : String
  pub defaults_for : String → Option KindDefaults
  pub hook : InsertInfo → Meta
