-- ===== src/Controls.antt =====
-- internal/core/job_controls.go, with lockJob, updateLockedJob, controlMiss and recordAudit of
-- job_audit.go: the operator's changes to one job. The audit hook of a host answers with its error,
-- if any; what it writes on the transaction is its own affair.
pub mod Retry
pub mod Refusals
pub mod Keeps
pub mod Safe
use go_flywheel.Base.{
  Bool, List, Option, String, [], any, count, false, find, if◌then◌else◌, none, not, select, some,
  str_eq, suc, update_where, ℕ, ◌&&◌, ◌++◌, ◌==◌, ◌∷◌,
}
use go_flywheel.Base.Int.{eq_ℤ, leb_ℤ, pos, ℤ}
use go_flywheel.Env.{Ctx}
use go_flywheel.Insert.Conflict.{clash}
use go_flywheel.Rows.{Audit, AuditAction, Db, Finish, Job, Run, in_scope}
use go_flywheel.Types.{
  Error, JobState, Result, Time, changed_while_locked, duplicate_key, err, guard, invalid,
  job_not_found, job_not_terminal, job_running, job_terminal, ok, state_eq, state_in,
  terminal_states, waiting_states, ◌>>=◌, ◌>>◌,
}

-- A control's context: the refusal of resolveActor, and the audit hook.
pub record Caller : Type 0 where
  pub ctx : Ctx
  pub refused : Option Error
  pub audit_hook : List Audit → Option Error

abbrev pub or_missing : Option Job → Result Job
or_missing none = err job_not_found
or_missing (some j) = ok j

-- lockJob: a transaction sees one state of the table.
unfoldable pub lock_job : List Job → String → Result Job
lock_job table id = or_missing (find (λ j. in_scope j && str_eq j.id id) table)

-- The row that lockJob read, still in the state it read.
abbrev pub is_locked : Job → Job → Bool
is_locked job j = in_scope j && str_eq j.id job.id && state_eq j.state job.state

-- An UPDATE fails on a unique index when a row that it writes conflicts with another row.
pub breaks_index : (Job → Bool) → (Job → Job) → List Job → Bool
breaks_index p f table =
    any (λ j. p j && any (λ r. not (str_eq r.id j.id) && clash r (f j)) table) table

unfoldable pub update_locked : List Job → Job → (Job → Job) → Result (List Job)
unfolding breaks_index
update_locked table job f = do
  guard (not (breaks_index (is_locked job) f table)) duplicate_key
  guard (count (is_locked job) table == 1) changed_while_locked
  ok (update_where (is_locked job) f table)

unfoldable pub control_miss : JobState → Error
control_miss state =
    if state_eq state JobState.running
    then job_running
    else if state_in state terminal_states
    then job_terminal
    else job_not_terminal

abbrev pub refusal : Option Error → Result (Unit {0})
refusal none = ok tt
refusal (some e) = err e

-- recordAudit of one change; a failing hook fails the transaction.
unfoldable pub record_audit : Caller → Db → Audit → Result Db
record_audit caller db entry = do
  refusal (caller.audit_hook (entry ∷ []))
  ok (record db { audit = db.audit ++ entry ∷ []; minted = suc db.minted })

abbrev pub entry_of : Ctx → String → AuditAction → JobState → Audit
entry_of c id action from = record {
  created_at = c.now;
  target_id = id;
  action = action;
  from_state = some from;
}

-- controlJob: `change` answers `none` for a change that would change nothing.
unfoldable pub control_job :
    Caller
    → Db
    → AuditAction
    → String
    → List JobState
    → (Db → Job → Time → Result (Option Db))
    → Result Db
control_job caller db action id acts change = do
  refusal caller.refused
  job ← lock_job db.jobs id
  guard (state_in job.state acts) (control_miss job.state)
  changed ← change db job caller.ctx.now
  elim changed [
    | none ↦ ok db
    | some db' ↦ record_audit caller db' (entry_of caller.ctx id action job.state)
  ]

abbrev pub write_locked : Db → Job → (Job → Job) → Result (Option Db)
write_locked db job f = do
  table ← update_locked db.jobs job f
  ok (some (record db { jobs = table }))

-- `at.IsZero()` is refused before the job is read.
unfoldable pub reschedule_job : Caller → Db → String → Time → Result Db
reschedule_job caller db id at = do
  refusal caller.refused
  guard (not (at == 0)) (invalid "at" "is required")
  control_job caller db AuditAction.rescheduled id waiting_states
      λ d job now. write_locked d job (λ j. record j { scheduled_at = at; updated_at = now })

unfoldable pub set_job_priority : Caller → Db → String → ℤ → Result Db
set_job_priority caller db id priority = do
  refusal caller.refused
  guard (leb_ℤ (pos 1) priority) (invalid "priority" "must be at least 1")
  control_job caller db AuditAction.reprioritized id waiting_states λ d job now.
      if eq_ℤ job.priority priority
      then ok none
      else write_locked d job (λ j. record j { priority = priority; updated_at = now })

unfoldable pub pause_job : Caller → Db → String → Result Db
pause_job caller db id = control_job caller db AuditAction.paused id waiting_states λ d job now.
    if state_eq job.state JobState.paused
    then ok none
    else write_locked d job (λ j. record j { state = JobState.paused; updated_at = now })

unfoldable pub resume_job : Caller → Db → String → Result Db
resume_job caller db id = control_job caller db AuditAction.resumed id waiting_states λ d job now.
    if not (state_eq job.state JobState.paused)
    then ok none
    else write_locked d job (λ j. record j { state = JobState.available; updated_at = now })

-- deleteRunFinishes and deleteJobRows of retention.go, for one job: its log entries, its runs, and
-- its rows, soft-deleted ones included.
abbrev logs_run : List Run → String → Finish → Bool
logs_run runs id f =
    any
      (λ r. str_eq r.job_id id && elim r.finished_at [
        | none ↦ false
        | some t ↦ t == f.finished_at && str_eq r.id f.run_id
      ])
      runs

unfoldable pub delete_job_rows : Db → String → Db × ℕ
delete_job_rows db id = (
  record db {
    finishes = select (λ f. not (logs_run db.runs id f)) db.finishes;
    runs = select (λ r. not (str_eq r.job_id id)) db.runs;
    jobs = select (λ j. not (str_eq j.id id)) db.jobs;
  },
  count (λ j. str_eq j.id id) db.jobs,
)

unfoldable pub delete_job : Caller → Db → String → Result Db
delete_job caller db id = control_job caller db AuditAction.deleted id terminal_states λ d job now.
    do
      let (d', gone) = delete_job_rows d job.id
      guard (gone == 1) changed_while_locked
      ok (some d')
