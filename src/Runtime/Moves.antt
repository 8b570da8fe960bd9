-- ===== src/Runtime/Moves.antt =====
-- About the controls of internal/core/job_controls.go and schedule.go: how they move a job's state.
use go_flywheel.Base.{
  Bool, Bool-cases, List, Memᴰ, Option, String, [], any, ap, arith, count, false, find, inl, inr,
  none, not, refl, select, some, str_eq, str_eq_iff, str_eq_refl, sym, true, ◌&&◌, ◌==◌, ◌||◌, ◌∙◌,
  ◌∷◌, ◌≡◌,
}
use go_flywheel.Base.Int.{eq_ℤ, leb_ℤ, pos, ℤ}
use go_flywheel.Controls.{
  Caller, breaks_index, control_job, delete_job, delete_job_rows, is_locked, lock_job, or_missing,
  pause_job, refusal, reschedule_job, resume_job, set_job_priority, update_locked, write_locked,
}
use go_flywheel.Controls.Keeps.{Changed, control_job-OnOk, unless-Changed}
use go_flywheel.Controls.Safe.{locked_state}
use go_flywheel.Rows.{AuditAction, Db, Job, in_scope}
use go_flywheel.Store.Evolves.{
  Effects, Evolves, at_end, Evolves-refl, Evolves-update, row_gone, row_kept, state_eq_same,
}
use go_flywheel.Store.Ids.{id_names_one}
use go_flywheel.Store.Wf.{TableOk}
use go_flywheel.Types.{
  JobState, OnOk, OnOk-at, OnOk-bind, Result, Time, changed_while_locked, duplicate_key, err, guard,
  invalid, is_terminal, ok, state_eq, state_eq_refl, state_in, terminal_states, waiting_states,
}

-- What ends an attempt.
abbrev pub ended_states : List JobState
ended_states =
    JobState.succeeded ∷ JobState.cancelled ∷ JobState.discarded ∷ JobState.retryable
    ∷ JobState.scheduled ∷ []

-- A state stays, or moves from one of some states to one of others.
abbrev pub moved : List JobState → List JobState → JobState → JobState → Bool
moved from to s t = state_eq s t || state_in s from && state_in t to

abbrev pub adding : (JobState → JobState → Bool) → Effects
adding m = record { moves = m; removes = λ s. false; adds = true }

abbrev pub moving : (JobState → JobState → Bool) → Effects
moving m = record { moves = m; removes = λ s. false; adds = false }

abbrev pub only : JobState → List JobState
only s = s ∷ []

pub moved_refl : (from to : List JobState) (s : JobState) → moved from to s s ≡ true
moved_refl from to s = rw (state_eq_refl s) refl

pub moved_there :
    (from to : List JobState) (s t : JobState)
    → state_in s from ≡ true
    → state_in t to ≡ true
    → moved from to s t ≡ true
moved_there from to s t h k = rw (h, k) (last (state_eq s t))
  where
    last : (b : Bool) → (b || true && true) ≡ true
    last b = ground arith

-- A statement under the lock that lockJob took.
pub update_locked-Evolves :
    (m : JobState → JobState → Bool) (idle : (s : JobState) → m s s ≡ true) (e : Bool)
    (table : List Job) (job : Job) (f : Job → Job)
    → ((j : Job)
        → state_eq j.state job.state ≡ true
        → ((f j).id ≡ j.id) × (m j.state (f j).state ≡ true))
    → OnOk
        (Evolves (record { moves = m; removes = λ s. false; adds = e }) table)
        (update_locked table job f)
unfolding update_locked
update_locked-Evolves m idle e table job f h =
    let effect : Effects = record { moves = m; removes = λ s. false; adds = e } in
    OnOk-bind (Evolves effect table)
      (guard (not (breaks_index (is_locked job) f table)) duplicate_key) _
      λ _ _.
        OnOk-bind (Evolves effect table)
          (guard (count (is_locked job) table == 1) changed_while_locked) _
          λ _ _.
            Evolves-update effect idle (is_locked job) f (λ j l. h j (locked_state job j l)) table

write_locked-Evolves :
    (m : JobState → JobState → Bool) (idle : (s : JobState) → m s s ≡ true) (db : Db) (job : Job)
    (f : Job → Job)
    → ((j : Job)
        → state_eq j.state job.state ≡ true
        → ((f j).id ≡ j.id) × (m j.state (f j).state ≡ true))
    → OnOk (Changed (Evolves (moving m) db.jobs)) (write_locked db job f)
write_locked-Evolves m idle db job f h =
    OnOk-bind (Changed (Evolves (moving m) db.jobs)) (update_locked db.jobs job f) _ λ t e.
      OnOk-at (Evolves (moving m) db.jobs) (update_locked db.jobs job f) t
        (update_locked-Evolves m idle false db.jobs job f h) e

pub from_locked :
    (from to : List JobState) (s t u : JobState)
    → state_in s from ≡ true
    → state_in u to ≡ true
    → state_eq t s ≡ true
    → moved from to t u ≡ true
from_locked from to s t u h k e = moved_there from to t u (rw (state_eq_same t s e) h) k

control_job-Evolves :
    (m : JobState → JobState → Bool) (idle : (s : JobState) → m s s ≡ true) (caller : Caller)
    (db : Db) (action : AuditAction) (id : String) (acts : List JobState)
    (change : Db → Job → Time → Result (Option Db))
    → ((job : Job) (now : Time)
        → state_in job.state acts ≡ true
        → OnOk (Changed (Evolves (moving m) db.jobs)) (change db job now))
    → OnOk (λ d. Evolves (moving m) db.jobs d.jobs) (control_job caller db action id acts change)
control_job-Evolves m idle caller db action id acts change h =
    control_job-OnOk (Evolves (moving m) db.jobs) caller db action id acts change
      (λ job now _ k. h job now k) (Evolves-refl (moving m) idle db.jobs)

pub reschedule_job-Evolves :
    (caller : Caller) (db : Db) (id : String) (at : Time)
    → OnOk (λ d. Evolves (moving state_eq) db.jobs d.jobs) (reschedule_job caller db id at)
unfolding reschedule_job
reschedule_job-Evolves caller db id at =
    OnOk-bind (λ d. Evolves (moving state_eq) db.jobs d.jobs) (refusal caller.refused) _
      λ _ _.
        OnOk-bind (λ d. Evolves (moving state_eq) db.jobs d.jobs)
          (guard (not (at == 0)) (invalid "at" "is required")) _
          λ _ _.
            control_job-Evolves state_eq state_eq_refl caller db AuditAction.rescheduled id
              waiting_states _
              (λ job now _.
                write_locked-Evolves state_eq state_eq_refl db job _
                  (λ j _. (refl, state_eq_refl j.state)))

pub set_job_priority-Evolves :
    (caller : Caller) (db : Db) (id : String) (priority : ℤ)
    → OnOk (λ d. Evolves (moving state_eq) db.jobs d.jobs) (set_job_priority caller db id priority)
unfolding set_job_priority
set_job_priority-Evolves caller db id priority =
    OnOk-bind (λ d. Evolves (moving state_eq) db.jobs d.jobs) (refusal caller.refused) _
      λ _ _.
        OnOk-bind (λ d. Evolves (moving state_eq) db.jobs d.jobs)
          (guard (leb_ℤ (pos 1) priority) (invalid "priority" "must be at least 1")) _
          λ _ _.
            control_job-Evolves state_eq state_eq_refl caller db AuditAction.reprioritized id
              waiting_states _
              (λ job now _.
                unless-Changed (Evolves (moving state_eq) db.jobs) (eq_ℤ job.priority priority) _ (
                  write_locked-Evolves state_eq state_eq_refl db job _
                    (λ j _. (refl, state_eq_refl j.state))))

pub pause_job-Evolves :
    (caller : Caller) (db : Db) (id : String)
    → OnOk
        (λ d. Evolves (moving (moved waiting_states (only JobState.paused))) db.jobs d.jobs)
        (pause_job caller db id)
unfolding pause_job
pause_job-Evolves caller db id =
    let m = moved waiting_states (only JobState.paused) in
    let idle = moved_refl waiting_states (only JobState.paused) in
    control_job-Evolves m idle caller db AuditAction.paused id waiting_states _ (λ job now k.
      unless-Changed (Evolves (moving m) db.jobs) (state_eq job.state JobState.paused) _ (
        write_locked-Evolves m idle db job _ (λ j e. (
          refl,
          from_locked waiting_states (only JobState.paused) job.state j.state JobState.paused k refl
              e,
        ))))

pub in_only : (s t : JobState) → state_eq s t ≡ true → state_in s (only t) ≡ true
in_only s t h = ground arith

pub resume_job-Evolves :
    (caller : Caller) (db : Db) (id : String)
    → OnOk
        (λ d.
          Evolves (moving (moved (only JobState.paused) (only JobState.available))) db.jobs d.jobs)
        (resume_job caller db id)
unfolding resume_job
resume_job-Evolves caller db id =
    let m = moved (only JobState.paused) (only JobState.available) in
    let idle = moved_refl (only JobState.paused) (only JobState.available) in
    control_job-Evolves m idle caller db AuditAction.resumed id waiting_states _ (λ job now _.
      elim (Bool-cases (state_eq job.state JobState.paused)) [
        | inl k ↦ rw k (
            write_locked-Evolves m idle db job _ (λ j e. (
              refl,
              from_locked (only JobState.paused) (only JobState.available) job.state j.state
                  JobState.available (in_only job.state JobState.paused k) refl e,
            )))
        | inr k ↦ rw k tt
      ])

-- Deleting by the id of a locked row.
select-Evolves :
    (p : Job → Bool) (js : List Job)
    → ((j : Job) → Memᴰ j js → p j ≡ false → is_terminal j.state ≡ true)
    → Evolves (record { moves = state_eq; removes = is_terminal; adds = false }) js (select p js)
select-Evolves p [] h = at_end
select-Evolves p (j ∷ js) h =
    let rest = select-Evolves p js (λ k m. h k (Memᴰ.tail m)) in
    elim (Bool-cases (p j)) [
      | inl e ↦ rw e (row_kept j j js _ refl (state_eq_refl j.state) rest)
      | inr e ↦ rw e (row_gone j js _ (h j (Memᴰ.head refl) e) rest)
    ]

pub missing_passed : (o : Option Job) (job : Job) → or_missing o ≡ ok job → o ≡ some job
missing_passed none job h = cc
missing_passed (some j) job h =
    ap (λ r. elim r as (λ _. Option Job) [ err _ ↦ none | ok x ↦ some x ]) h

pub find_there :
    (p q : Job → Bool) (js : List Job) (job : Job)
    → find p js ≡ some job
    → q job ≡ true
    → any (λ x. str_eq job.id x.id && q x) js ≡ true
find_there p q [] job e k = cc
find_there p q (j ∷ js) job e k = elim (Bool-cases (p j)) [
  | inl t ↦ here (sym (head t) ∙ e)
  | inr t ↦ behind (str_eq job.id j.id && q j) _ (find_there p q js job (sym (tail t) ∙ e) k)
]
  where
    head : p j ≡ true → find p (j ∷ js) ≡ some j
    head t = rw t refl

    tail : p j ≡ false → find p (j ∷ js) ≡ find p js
    tail t = rw t refl

    here : some j ≡ some job → any (λ x. str_eq job.id x.id && q x) (j ∷ js) ≡ true
    here t =
        let same : j ≡ job = ap (λ o. elim o as (λ _. Job) [ none ↦ j | some x ↦ x ]) t in
        rw same (rw (str_eq_refl job.id, k) refl)

    behind : (a b : Bool) → b ≡ true → (a || b) ≡ true
    behind a b t = ground arith

terminal_in : (s : JobState) → state_in s terminal_states ≡ true → is_terminal s ≡ true
terminal_in s h = ground arith

pub delete_job-Evolves :
    (caller : Caller) (db : Db) (id : String)
    → TableOk db.jobs
    → OnOk
        (λ d.
          Evolves (record { moves = state_eq; removes = is_terminal; adds = false }) db.jobs d.jobs)
        (delete_job caller db id)
unfolding delete_job delete_job_rows lock_job
delete_job-Evolves caller db id w =
    let effect : Effects = record { moves = state_eq; removes = is_terminal; adds = false } in
    control_job-OnOk (Evolves effect db.jobs) caller db AuditAction.deleted id terminal_states _
      (λ job now found k.
        OnOk-bind (Changed (Evolves effect db.jobs))
          (guard ((delete_job_rows db job.id).1 == 1) changed_while_locked) _
          λ _ _.
            select-Evolves (λ j. not (str_eq j.id job.id)) db.jobs
              (λ j m e.
                let same = (str_eq_iff j.id job.id).0 (kept (str_eq j.id job.id) e) in
                id_names_one (λ x. is_terminal x.state) db.jobs j w.unique m
                  (rw same (
                    find_there (λ x. in_scope x && str_eq x.id id) (λ x. is_terminal x.state)
                      db.jobs job (missing_passed _ job found) (terminal_in job.state k)))))
      (Evolves-refl effect state_eq_refl db.jobs)
  where
    kept : (b : Bool) → not b ≡ false → b ≡ true
    kept b h = ground arith
