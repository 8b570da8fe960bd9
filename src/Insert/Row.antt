-- ===== src/Insert/Row.antt =====
-- The rows that internal/core/client.go and driver.go build: buildRow, buildChildRow, and the
-- kindDefaults (registry.go) that fill what a call leaves zero.
use go_flywheel.Base.{
  Bool, List, Option, String, [], false, if◌then◌else◌, none, some, str_eq, ◌/◌, ◌∷◌,
}
use go_flywheel.Base.Int.{eq_ℤ, ltb_ℤ, negsuc, pos, ℤ}
use go_flywheel.Env.{Ctx, KindDefaults, Meta}
use go_flywheel.Insert.Stamp.{Stamp, stamp_row}
use go_flywheel.Rows.{Job}
use go_flywheel.Types.{
  Bytes, Duration, InsertSource, JobState, Result, Time, encode_failed, err, ok, ◌>>=◌,
}
use go_flywheel.Work.{Encoded, FollowUp, encoded, unencodable}

abbrev pub default_queue : String
default_queue = "default"

abbrev pub default_priority : ℤ
default_priority = pos 100

abbrev pub default_max_attempts : ℤ
default_max_attempts = pos 25

-- The fields of types.go's InsertOpts that a row is built from; "" and 0 are left unset.
pub record InsertOpts : Type 0 where
  pub queue : String
  pub unique_key : String
  pub unique_active_key : String
  pub schedule_at : Option Time
  pub parent : Option String
  pub priority : ℤ
  pub executor_class : String
  pub max_attempts : ℤ
  pub timeout : Duration
  pub on_tx : Bool
  pub request_id : String
  pub tags : List String
  pub metadata : Meta

abbrev pub or_string : String → String → String
or_string value fallback = if str_eq value "" then fallback else value

abbrev pub or_int : ℤ → ℤ → ℤ
or_int value fallback = if eq_ℤ value (pos 0) then fallback else value

abbrev pub non_empty : String → Option String
non_empty s = if str_eq s "" then none else some s

-- `int(d.Milliseconds())` of a positive duration, and NULL otherwise.
abbrev pub timeout_column : Duration → Option ℤ
timeout_column (pos n) = if ltb_ℤ (pos 0) (pos n) then some (pos (n / 1000000)) else none
timeout_column (negsuc n) = none

abbrev or_tags : List String → List String → List String
or_tags [] fallback = fallback
or_tags (t ∷ ts) fallback = t ∷ ts

unfoldable pub apply_to : Option KindDefaults → InsertOpts → InsertOpts
apply_to none opts = opts
apply_to (some d) opts = record opts {
  queue = or_string opts.queue d.queue;
  priority = or_int opts.priority d.priority;
  max_attempts = or_int opts.max_attempts d.max_attempts;
  timeout = or_int opts.timeout d.timeout;
  executor_class = or_string opts.executor_class d.executor_class;
  tags = or_tags opts.tags d.tags;
}

-- buildRow, with the id that models.NewID mints and the stamp that `st.apply` writes.
unfoldable pub build_row : Ctx → String → String → Bytes → InsertOpts → Stamp → Job
build_row c id kind payload opts st = record {
  id = id;
  created_at = c.now;
  updated_at = c.now;
  metadata = st.metadata;
  kind = kind;
  queue = or_string opts.queue default_queue;
  args = payload;
  priority = or_int opts.priority default_priority;
  state = JobState.available;
  attempt = 0;
  max_attempts = or_int opts.max_attempts default_max_attempts;
  timeout_ms = timeout_column opts.timeout;
  scheduled_at = elim opts.schedule_at [ none ↦ c.now | some t ↦ t ];
  leased_until = none;
  lease_token = none;
  unique_key = non_empty opts.unique_key;
  unique_active_key = non_empty opts.unique_active_key;
  parent_job_id = opts.parent;
  executor_class = opts.executor_class;
  finalized_at = none;
  barrier_kind = none;
  barrier_spec = none;
  tags = st.tags;
  deleted_at = none;
}

unfoldable pub no_opts : InsertOpts
no_opts = record {
  queue = "";
  unique_key = "";
  unique_active_key = "";
  schedule_at = none;
  parent = none;
  priority = pos 0;
  executor_class = "";
  max_attempts = pos 0;
  timeout = pos 0;
  on_tx = false;
  request_id = "";
  tags = [];
  metadata = [];
}

-- The routing that `d.applyTo(InsertOpts{…})` resolves for a follow-up.
pub routed_opts : Option KindDefaults → FollowUp → InsertOpts
unfolding apply_to no_opts
routed_opts d fu = apply_to d (record no_opts {
  queue = fu.queue;
  priority = fu.priority;
  executor_class = fu.executor_class;
  tags = fu.tags;
})

abbrev pub marshal_args : Encoded → Result Bytes
marshal_args (encoded b) = ok b
marshal_args unencodable = err encode_failed

-- The stamp of a child: its hook sees the parent only where the follow-up asks for one.
pub child_stamp : Ctx → FollowUp → String → String → InsertSource → InsertOpts → Result Stamp
child_stamp c fu parent_id spawned_by source routed =
    stamp_row c
      (record {
        kind = fu.kind;
        queue = or_string routed.queue default_queue;
        source = source;
        spawned_by = spawned_by;
        parent_job_id = if fu.parent then parent_id else "";
        periodic_slug = "";
      })
      routed.tags fu.metadata c.request_id

pub child_opts : FollowUp → String → InsertOpts → InsertOpts
child_opts fu parent_id routed = record routed {
  schedule_at = fu.schedule_at;
  unique_key = fu.unique_key;
  parent = if fu.parent then some parent_id else none;
}

-- buildChildRow. It sets no active key, and a parent only where the follow-up asks for one.
unfoldable pub build_child_row :
    Ctx → String → FollowUp → String → String → InsertSource → Option KindDefaults → Result Job
unfolding routed_opts child_stamp child_opts
build_child_row c id fu parent_id spawned_by source d = do
  payload ← marshal_args fu.args
  st ← child_stamp c fu parent_id spawned_by source (routed_opts d fu)
  ok (build_row c id fu.kind payload (child_opts fu parent_id (routed_opts d fu)) st)
