-- ===== src/Queues.antt =====
-- internal/core/queues.go and queue_state.go, with jobQueueRow of rows.go and the Actor of
-- job_audit.go: the queues that operators pause and cap, and what a Runner reads of them. A cap is
-- an `int`; the details of an audit entry are left out.
pub mod Idle
pub mod Paused
pub mod Caps
use go_flywheel.Base.{
  Bool, List, Option, String, [], any, false, find, if◌then◌else◌, is_none, is_some, length, map,
  none, not, select, some, str_eq, str_mem, true, update_where, ◌&&◌, ◌++◌, ◌==◌, ◌||◌, ◌∷◌,
}
use go_flywheel.Base.Int.{eq_ℤ, leb_ℤ, ltb_ℤ, pos, ℤ}
use go_flywheel.Controls.{Caller, record_audit, refusal}
use go_flywheel.Pool.{Pool, set_limit}
use go_flywheel.Rows.{Audit, AuditAction, Db}
use go_flywheel.Types.{Duration, Result, Time, err, guard, invalid, ok, sub_time, ◌>>=◌, ◌>>◌}

pub record Actor : Type 0 where
  pub type : String
  pub id : String
  pub reason : String

pub record QueueRow : Type 0 where
  pub queue : String
  pub paused_at : Option Time
  pub paused_by_type : String
  pub paused_by_id : String
  pub paused_reason : String
  pub updated_at : Time
  pub max_concurrency : Option ℤ

pub record QueueDb : Type 0 where
  pub queues : List QueueRow
  pub db : Db

abbrev pub is_queue : String → QueueRow → Bool
is_queue queue r = str_eq r.queue queue

-- INSERT … ON CONFLICT (queue) DO NOTHING of an open queue.
unfoldable pub seed_queue : Time → String → List QueueRow → List QueueRow
seed_queue now queue rows =
    if any (is_queue queue) rows
    then rows
    else rows
      ++ record {
        queue = queue;
        paused_at = none;
        paused_by_type = "";
        paused_by_id = "";
        paused_reason = "";
        updated_at = now;
        max_concurrency = none;
      }
        ∷ []

unfoldable pub pause_row : Time → Actor → QueueRow → QueueRow
pause_row now actor r = record r {
  paused_at = some now;
  paused_by_type = actor.type;
  paused_by_id = actor.id;
  paused_reason = actor.reason;
  updated_at = now;
}

unfoldable pub resume_row : Time → QueueRow → QueueRow
resume_row now r = record r {
  paused_at = none;
  paused_by_type = "";
  paused_by_id = "";
  paused_reason = "";
  updated_at = now;
}

abbrev pub queue_entry : Time → String → AuditAction → Audit
queue_entry now queue action = record {
  created_at = now;
  target_id = queue;
  action = action;
  from_state = none;
}

-- An UPDATE that, where it reached a row, is recorded.
unfoldable pub change_queues :
    Caller
    → Db
    → List QueueRow
    → String
    → AuditAction
    → (QueueRow → Bool)
    → (QueueRow → QueueRow)
    → Result QueueDb
change_queues caller db rows queue action p f =
    if any p rows
    then (do
      db' ← record_audit caller db (queue_entry caller.ctx.now queue action)
      ok (record { queues = update_where p f rows; db = db' }))
    else ok (record { queues = rows; db = db })

unfoldable pub pause_queue : Caller → Actor → QueueDb → String → Result QueueDb
pause_queue caller actor d queue = do
  refusal caller.refused
  guard (not (str_eq queue "")) (invalid "queue" "is required")
  change_queues caller d.db (seed_queue caller.ctx.now queue d.queues) queue AuditAction.paused
      (λ r. is_queue queue r && is_none r.paused_at) (pause_row caller.ctx.now actor)

unfoldable pub resume_queue : Caller → QueueDb → String → Result QueueDb
resume_queue caller d queue = do
  refusal caller.refused
  guard (not (str_eq queue "")) (invalid "queue" "is required")
  change_queues caller d.db d.queues queue AuditAction.resumed
      (λ r. is_queue queue r && is_some r.paused_at) (resume_row caller.ctx.now)

abbrev same_cap : Option ℤ → Option ℤ → Bool
same_cap none none = true
same_cap none (some n) = false
same_cap (some m) none = false
same_cap (some m) (some n) = eq_ℤ m n

abbrev valid_cap : Option ℤ → Bool
valid_cap none = true
valid_cap (some n) = leb_ℤ (pos 1) n

-- What SetQueueConcurrency does with the row it locked.
unfoldable pub cap_locked :
    Caller → Db → List QueueRow → String → Option ℤ → Option QueueRow → Result QueueDb
cap_locked caller db rows queue n none = ok (record { queues = rows; db = db })
cap_locked caller db rows queue n (some row) =
    if same_cap row.max_concurrency n
    then ok (record { queues = rows; db = db })
    else change_queues caller db rows queue AuditAction.limits_set (is_queue queue)
        (λ r. record r { max_concurrency = n; updated_at = caller.ctx.now })

unfoldable pub set_queue_concurrency : Caller → QueueDb → String → Option ℤ → Result QueueDb
set_queue_concurrency caller d queue n = do
  refusal caller.refused
  guard (not (str_eq queue "")) (invalid "queue" "is required")
  guard (valid_cap n) (invalid "max_concurrency" "must be at least 1")
  let rows = if is_some n then seed_queue caller.ctx.now queue d.queues else d.queues
  cap_locked caller d.db rows queue n (find (is_queue queue) rows)

-- The fields of RunnerConfig that claimable reads.
pub record QueueConfig : Type 0 where
  pub queues : List String
  pub concurrency : ℤ
  pub queue_state_refresh : Duration

-- The set of paused queues is a list of names.
pub record QueueState : Type 0 where
  pub paused : List String
  pub read : Bool
  pub last_try : Time
  pub failing : Bool

-- 5 s
abbrev default_queue_state_refresh : Duration
default_queue_state_refresh = pos 5000000000

unfoldable pub queue_state_refresh : QueueConfig → Duration
queue_state_refresh cfg =
    if ltb_ℤ cfg.queue_state_refresh (pos 0)
    then pos 0
    else if ltb_ℤ (pos 0) cfg.queue_state_refresh
    then cfg.queue_state_refresh
    else default_queue_state_refresh

unfoldable pub paused_names : List QueueRow → List String
paused_names rows = map (λ r. r.queue) (select (λ r. is_some r.paused_at) rows)

abbrev pub lower : Option ℤ → Option ℤ → Option ℤ
lower none capped = capped
lower (some n) none = some n
lower (some n) (some m) = if ltb_ℤ n m then some n else some m

unfoldable pub lowest_cap : Option ℤ → List QueueRow → Option ℤ
lowest_cap capped [] = capped
lowest_cap capped (r ∷ rs) = lowest_cap (lower r.max_concurrency capped) rs

abbrev pub or_concurrency : Option ℤ → ℤ → ℤ
or_concurrency none concurrency = concurrency
or_concurrency (some n) concurrency = n

-- The refresh, on what the query of the served queues' rows answers; an error with the context
-- cancelled changes nothing.
unfoldable pub refresh_state :
    QueueConfig → Bool → Result (List QueueRow) → QueueState → Pool → QueueState × Pool
refresh_state cfg cancelled (err e) s pool =
    (if cancelled then s else record s { failing = true }, pool)
refresh_state cfg cancelled (ok rows) s pool = (
  record s { failing = false; read = true; paused = paused_names rows },
  set_limit (or_concurrency (lowest_cap none rows) cfg.concurrency) pool,
)

-- `s.lastTry.IsZero() || now.Sub(s.lastTry) >= refresh`
abbrev pub is_due : QueueConfig → QueueState → Time → Bool
is_due cfg s now = s.last_try == 0 || leb_ℤ (queue_state_refresh cfg) (sub_time now s.last_try)

abbrev pub open_queues : QueueConfig → QueueState → List String
open_queues cfg s =
    if not s.read || (length s.paused == 0)
    then cfg.queues
    else select (λ q. not (str_mem q s.paused)) cfg.queues

-- `answer` is what the query of the table would answer now.
unfoldable pub claimable :
    QueueConfig
    → Time
    → Bool
    → Result (List QueueRow)
    → QueueState
    → Pool
    → (QueueState × Pool) × List String
unfolding queue_state_refresh
claimable cfg now cancelled answer s pool =
    if leb_ℤ (queue_state_refresh cfg) (pos 0)
    then ((s, pool), cfg.queues)
    else (let read =
          if is_due cfg s now
          then refresh_state cfg cancelled answer (record s { last_try = now }) pool
          else (s, pool) in
        (read, open_queues cfg read.0))

-- The rows that claimable's query selects.
abbrev pub served_rows : QueueConfig → List QueueRow → List QueueRow
served_rows cfg rows = select (λ r. str_mem r.queue cfg.queues) rows
