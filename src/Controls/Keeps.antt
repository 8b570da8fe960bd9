-- ===== src/Controls/Keeps.antt =====
-- About controlJob of internal/core/job_controls.go: what its change leaves, whatever that is.
use go_flywheel.Base.{
  Bool, List, Option, String, [], false, if◌then◌else◌, none, refl, some, true, ◌∷◌, ◌≡◌,
}
use go_flywheel.Controls.{
  Caller, control_job, control_miss, entry_of, lock_job, record_audit, refusal,
}
use go_flywheel.Rows.{Audit, AuditAction, Db, Job}
use go_flywheel.Types.{Error, JobState, OnOk, OnOk-at, OnOk-bind, Result, Time, guard, ok, state_in}

pub guard-true : (b : Bool) (e : Error) (u : Unit {0}) → guard b e ≡ ok u → b ≡ true
guard-true true e u h = refl
guard-true false e u h = cc

-- What a control's change leaves, if it changes anything.
abbrev pub Changed {κ} : (List Job → Type κ) → Option Db → Type κ
Changed P none = Unit
Changed P (some d) = P d.jobs

module _ {κ} (P : List Job → Type κ) where
  pub record_audit-OnOk :
      (caller : Caller) (db : Db) (entry : Audit)
      → P db.jobs
      → OnOk (λ d. P d.jobs) (record_audit caller db entry)
  unfolding record_audit
  record_audit-OnOk caller db entry w =
      OnOk-bind (λ d. P d.jobs) (refusal (caller.audit_hook (entry ∷ []))) _ λ a _. w

  pub control_job-OnOk :
      (caller : Caller) (db : Db) (action : AuditAction) (id : String) (acts : List JobState)
      (change : Db → Job → Time → Result (Option Db))
      → ((job : Job) (now : Time)
          → lock_job db.jobs id ≡ ok job
          → state_in job.state acts ≡ true
          → OnOk (Changed P) (change db job now))
      → P db.jobs
      → OnOk (λ d. P d.jobs) (control_job caller db action id acts change)
  unfolding control_job
  control_job-OnOk caller db action id acts change keeps w =
      OnOk-bind (λ d. P d.jobs) (refusal caller.refused) _
        λ a _.
          OnOk-bind (λ d. P d.jobs) (lock_job db.jobs id) _
            λ job found.
              OnOk-bind (λ d. P d.jobs) (guard (state_in job.state acts) (control_miss job.state)) _
                λ b e.
                  OnOk-bind (λ d. P d.jobs) (change db job caller.ctx.now) _
                    λ changed e'. after job changed (
                      OnOk-at (Changed P) (change db job caller.ctx.now) changed
                        (keeps job caller.ctx.now found (guard-true _ (control_miss job.state) b e))
                        e')
    where
      after :
          (job : Job) (changed : Option Db)
          → Changed P changed
          → OnOk
              (λ d. P d.jobs)
              (elim changed [
                | none ↦ ok db
                | some db' ↦ record_audit caller db' (entry_of caller.ctx id action job.state)
              ])
      after job none c = w
      after job (some d) c = record_audit-OnOk caller d (entry_of caller.ctx id action job.state) c

  pub unless-Changed :
      (b : Bool) (r : Result (Option Db))
      → OnOk (Changed P) r
      → OnOk (Changed P) (if b then ok none else r)
  unless-Changed true r h = tt
  unless-Changed false r h = h
