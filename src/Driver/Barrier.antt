-- ===== src/Driver/Barrier.antt =====
-- The fan-in barrier of internal/core/driver.go: validateBarrier, resolveBarrierColumns,
-- fireBarrierIfComplete and followUpFromBarrierSpec.
pub mod Complete
pub mod Continuation
pub mod Fires
pub mod Once
pub mod Quiet
use Prim.Native.String.{◌++◌ as str_append}
use go_flywheel.Base.{
  Bool, List, Option, String, [], any, count, false, find, if◌then◌else◌, leb, none, not,
  opt_str_eq, some, str_eq, suc, true, update_where, ℕ, ◌&&◌, ◌*◌, ◌-◌, ◌==◌, ◌∷◌,
}
use go_flywheel.Base.Int.{negsuc, pos, ℤ}
use go_flywheel.Env.{Ctx, KindDefaults}
use go_flywheel.Insert.Conflict.{conflict_insert_chunk}
use go_flywheel.Insert.Row.{
  InsertOpts, apply_to, build_child_row, marshal_args, no_opts, or_int, or_string, timeout_column,
}
use go_flywheel.Rows.{BarrierSpec, Db, Job, in_scope}
use go_flywheel.Types.{
  Bytes, Duration, InsertSource, Result, barrier_no_children, barrier_too_wide, err, guard, invalid,
  is_terminal, ok, record_not_found, ◌>>=◌, ◌>>◌,
}
use go_flywheel.Work.{Barrier, FollowUp, RawJob, encoded}

unfoldable pub validate_barrier : Barrier → List FollowUp → ℕ → Result (Unit {0})
validate_barrier b follow_ups max_children = do
  guard (not (str_eq b.kind "")) (invalid "barrier kind" "is required")
  let children = count (λ fu. fu.parent) follow_ups
  guard (not (children == 0)) barrier_no_children
  guard (leb children max_children) barrier_too_wide

unfoldable pub by_id : String → Job → Bool
by_id id j = in_scope j && str_eq j.id id

abbrev or_not_found : Option Job → Result Job
or_not_found none = err record_not_found
or_not_found (some j) = ok j

abbrev barrier_opts : Option KindDefaults → Barrier → InsertOpts
barrier_opts d b =
    apply_to d
      (record no_opts { queue = b.queue; priority = b.priority; executor_class = b.executor_class })

pub barrier_spec_of : RawJob → Job → InsertOpts → Bytes → BarrierSpec
barrier_spec_of raw parent routed args = record {
  args = args;
  queue = or_string routed.queue raw.queue;
  executor_class = or_string routed.executor_class parent.executor_class;
  priority = or_int routed.priority parent.priority;
  max_attempts = routed.max_attempts;
  timeout_ms = elim (timeout_column routed.timeout) [ none ↦ pos 0 | some ms ↦ ms ];
  tags = routed.tags;
}

-- resolveBarrierColumns; the defaults are those of the continuation's kind.
unfoldable pub resolve_barrier_columns :
    Ctx → List Job → RawJob → Barrier → Result (String × BarrierSpec)
unfolding by_id barrier_spec_of apply_to no_opts
resolve_barrier_columns c table raw b = do
  parent ← or_not_found (find (by_id raw.id) table)
  args ← marshal_args b.args
  ok (b.kind, barrier_spec_of raw parent (barrier_opts (c.defaults_for b.kind) b) args)

-- followUpFromBarrierSpec
pub follow_up_of_spec : String → BarrierSpec → String → FollowUp
follow_up_of_spec kind spec parent_id = record {
  kind = kind;
  args = encoded spec.args;
  queue = spec.queue;
  unique_key = str_append "barrier:" parent_id;
  schedule_at = none;
  parent = true;
  priority = spec.priority;
  executor_class = spec.executor_class;
  tags = [];
  metadata = [];
}

abbrev both : Option String → Option BarrierSpec → Option (String × BarrierSpec)
both (some k) (some spec) = some (k, spec)
both (some k) none = none
both none spec = none

-- `time.Duration(ms) * time.Millisecond`
abbrev ms_duration : ℤ → Duration
ms_duration (pos n) = pos (n * 1000000)
ms_duration (negsuc n) = negsuc (suc n * 1000000 - 1)

-- barrierSpecDefaults
pub spec_defaults : BarrierSpec → KindDefaults
spec_defaults spec = record {
  queue = "";
  priority = pos 0;
  max_attempts = spec.max_attempts;
  timeout = ms_duration spec.timeout_ms;
  executor_class = "";
  tags = spec.tags;
}

-- A sibling that the completion count still waits for.
abbrev pub is_pending_child : String → Job → Bool
is_pending_child parent_id j =
    in_scope j && opt_str_eq j.parent_job_id (some parent_id) && not (is_terminal j.state)

unfoldable pub clear_barrier : Job → Job
clear_barrier j = record j { barrier_kind = none; barrier_spec = none }

-- The continuation goes in past conflicts, and the parent's barrier is cleared.
unfoldable pub enqueue_continuation : Ctx → Db → String → String → String → BarrierSpec → Result Db
unfolding follow_up_of_spec spec_defaults by_id clear_barrier
enqueue_continuation c db parent_id spawned_by kind spec = do
  row ←
      build_child_row c (c.lib.new_id db.minted) (follow_up_of_spec kind spec parent_id) parent_id
        spawned_by InsertSource.barrier (some (spec_defaults spec))
  (table, _) ← conflict_insert_chunk c db.jobs (row ∷ [])
  ok (record db {
    jobs = update_where (by_id parent_id) clear_barrier table;
    minted = suc db.minted;
  })

-- What the gate finds: the kind and the spec of a parent that still has its barrier.
unfoldable pub barrier_of : Option Job → Option (String × BarrierSpec)
barrier_of none = none
barrier_of (some j) = both j.barrier_kind j.barrier_spec

unfoldable pub fire_pending :
    Ctx → Db → String → String → Option (String × BarrierSpec) → Result (Db × Bool)
unfolding enqueue_continuation
fire_pending c db parent_id spawned_by none = ok (db, false)
fire_pending c db parent_id spawned_by (some (kind, spec)) =
    if any (is_pending_child parent_id) db.jobs
    then ok (db, false)
    else (do db' ← enqueue_continuation c db parent_id spawned_by kind spec; ok (db', true))

-- fireBarrierIfComplete. A transaction sees one state of the table, so that the read that the gate
-- makes and the one that locks the parent agree.
unfoldable pub fire_barrier_if_complete : Ctx → Db → String → String → Result (Db × Bool)
unfolding fire_pending barrier_of by_id
fire_barrier_if_complete c db parent_id spawned_by =
    fire_pending c db parent_id spawned_by (barrier_of (find (by_id parent_id) db.jobs))
