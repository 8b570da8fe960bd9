-- ===== src/Controls/Safe.antt =====
-- About updateLockedJob and controlJob of internal/core: the jobs table that a control leaves.
use go_flywheel.Base.{
  All, Bool, Bool-cases, List, Memᴰ, String, [], any, arith, count, false, inl, inr, not, refl,
  select, str_eq, sym, true, ◌&&◌, ◌==◌, ◌∙◌, ◌∷◌, ◌≡◌,
}
use go_flywheel.Base.Int.{eq_ℤ, leb_ℤ, pos, ℤ}
use go_flywheel.Controls.{
  Caller, breaks_index, delete_job, delete_job_rows, is_locked, pause_job, refusal, reschedule_job,
  resume_job, set_job_priority, update_locked, write_locked,
}
use go_flywheel.Controls.Keeps.{Changed, control_job-OnOk, guard-true, unless-Changed}
use go_flywheel.Insert.Conflict.{clash}
use go_flywheel.Rows.{AuditAction, Db, Job, in_scope}
use go_flywheel.Store.Replace.{any-none, checked-Unique}
use go_flywheel.Store.Unique.{Unique}
use go_flywheel.Store.Update.{All-update_where}
use go_flywheel.Store.Wf.{RowOk, TableOk}
use go_flywheel.Types.{
  JobState, OnOk, OnOk-at, OnOk-bind, Time, changed_while_locked, duplicate_key, guard, invalid,
  is_terminal, state_eq, state_eq_refl, state_in, terminal_states, waiting_states,
}

locked_named : (job j : Job) → is_locked job j ≡ true → str_eq j.id job.id ≡ true
locked_named job j h = part (in_scope j) (str_eq j.id job.id) (state_eq j.state job.state) h
  where
    part : (a b c : Bool) → (a && b && c) ≡ true → b ≡ true
    part a b c k = ground arith

pub locked_state : (job j : Job) → is_locked job j ≡ true → state_eq j.state job.state ≡ true
locked_state job j h = part (in_scope j) (str_eq j.id job.id) (state_eq j.state job.state) h
  where
    part : (a b c : Bool) → (a && b && c) ≡ true → c ≡ true
    part a b c k = ground arith

unbroken :
    (p : Job → Bool) (f : Job → Job) (table : List Job)
    → not (breaks_index p f table) ≡ true
    → (r j : Job) → Memᴰ r table
    → Memᴰ j table
    → p j ≡ true
    → (not (str_eq r.id j.id) && clash r (f j)) ≡ false
unfolding breaks_index
unbroken p f table h r j m n k =
    any-none (λ x. not (str_eq x.id j.id) && clash x (f j)) table r
      (right (p j) _ k (
        any-none (λ x. p x && any (λ y. not (str_eq y.id x.id) && clash y (f x)) table) table j
          (flip _ h) n))
      m
  where
    flip : (b : Bool) → not b ≡ true → b ≡ false
    flip b t = ground arith

    right : (a b : Bool) → a ≡ true → (a && b) ≡ false → b ≡ false
    right a b s t = ground arith

pub update_locked-TableOk :
    (table : List Job) (job : Job) (f : Job → Job)
    → ((j : Job) → is_locked job j ≡ true → RowOk j → RowOk (f j))
    → TableOk table
    → OnOk TableOk (update_locked table job f)
unfolding update_locked
update_locked-TableOk table job f keeps w =
    OnOk-bind TableOk (guard (not (breaks_index (is_locked job) f table)) duplicate_key) _ λ u e.
      OnOk-bind TableOk (guard (count (is_locked job) table == 1) changed_while_locked) _ λ v _.
        record {
          rows = All-update_where RowOk (is_locked job) f keeps table w.rows;
          unique =
              checked-Unique (is_locked job) f job.id (locked_named job) table w.unique
                (unbroken (is_locked job) f table (guard-true _ duplicate_key u e));
        }

write_locked-Changed :
    (db : Db) (job : Job) (f : Job → Job)
    → ((j : Job) → is_locked job j ≡ true → RowOk j → RowOk (f j))
    → TableOk db.jobs
    → OnOk (Changed TableOk) (write_locked db job f)
write_locked-Changed db job f keeps w =
    OnOk-bind (Changed TableOk) (update_locked db.jobs job f) _ λ t e.
      OnOk-at TableOk (update_locked db.jobs job f) t (update_locked-TableOk db.jobs job f keeps w)
        e

-- A waiting row, moved to a state in which it still waits.
still_waiting :
    (s t : JobState)
    → state_in s waiting_states ≡ true
    → (state_eq t s ≡ true)
    → (state_eq t JobState.running ≡ false) × (is_terminal t ≡ false)
still_waiting s t h k = (ground arith, ground arith)

waits-RowOk :
    (job j : Job) (state : JobState) (now : Time)
    → state_in job.state waiting_states ≡ true
    → state_in state waiting_states ≡ true
    → is_locked job j ≡ true
    → RowOk j
    → RowOk (record j { state = state; updated_at = now })
waits-RowOk job j state now h k l w =
    let (idle, live) = still_waiting job.state j.state h (locked_state job j l) in
    let (idle', live') = still_waiting state state k (state_eq_refl state) in
    record {
      leased = idle' ∙ (sym idle ∙ w.leased);
      lease_ends = w.lease_ends;
      finalized = live' ∙ (sym live ∙ w.finalized);
      barrier_whole = w.barrier_whole;
    }

pub reschedule_job-TableOk :
    (caller : Caller) (db : Db) (id : String) (at : Time)
    → TableOk db.jobs
    → OnOk (λ d. TableOk d.jobs) (reschedule_job caller db id at)
unfolding reschedule_job
reschedule_job-TableOk caller db id at w =
    OnOk-bind (λ d. TableOk d.jobs) (refusal caller.refused) _
      λ a _.
        OnOk-bind (λ d. TableOk d.jobs) (guard (not (at == 0)) (invalid "at" "is required")) _
          λ b _.
            control_job-OnOk TableOk caller db AuditAction.rescheduled id waiting_states _
              (λ job now _ h.
                write_locked-Changed db job _
                  (λ j l v. record {
                    leased = v.leased;
                    lease_ends = v.lease_ends;
                    finalized = v.finalized;
                    barrier_whole = v.barrier_whole;
                  })
                  w)
              w

pub set_job_priority-TableOk :
    (caller : Caller) (db : Db) (id : String) (priority : ℤ)
    → TableOk db.jobs
    → OnOk (λ d. TableOk d.jobs) (set_job_priority caller db id priority)
unfolding set_job_priority
set_job_priority-TableOk caller db id priority w =
    OnOk-bind (λ d. TableOk d.jobs) (refusal caller.refused) _
      λ a _.
        OnOk-bind (λ d. TableOk d.jobs)
          (guard (leb_ℤ (pos 1) priority) (invalid "priority" "must be at least 1")) _
          λ b _.
            control_job-OnOk TableOk caller db AuditAction.reprioritized id waiting_states _
              (λ job now _ h. unless-Changed TableOk (eq_ℤ job.priority priority) _ (
                write_locked-Changed db job _
                  (λ j l v. record {
                    leased = v.leased;
                    lease_ends = v.lease_ends;
                    finalized = v.finalized;
                    barrier_whole = v.barrier_whole;
                  })
                  w))
              w

pub pause_job-TableOk :
    (caller : Caller) (db : Db) (id : String)
    → TableOk db.jobs
    → OnOk (λ d. TableOk d.jobs) (pause_job caller db id)
unfolding pause_job
pause_job-TableOk caller db id w =
    control_job-OnOk TableOk caller db AuditAction.paused id waiting_states _
      (λ job now _ h. unless-Changed TableOk (state_eq job.state JobState.paused) _ (
        write_locked-Changed db job _ (λ j l v. waits-RowOk job j JobState.paused now h refl l v)
          w))
      w

pub resume_job-TableOk :
    (caller : Caller) (db : Db) (id : String)
    → TableOk db.jobs
    → OnOk (λ d. TableOk d.jobs) (resume_job caller db id)
unfolding resume_job
resume_job-TableOk caller db id w =
    control_job-OnOk TableOk caller db AuditAction.resumed id waiting_states _
      (λ job now _ h. unless-Changed TableOk (not (state_eq job.state JobState.paused)) _ (
        write_locked-Changed db job _ (λ j l v. waits-RowOk job j JobState.available now h refl l v)
          w))
      w

any-select_none :
    (q p : Job → Bool) (js : List Job) → any q js ≡ false → any q (select p js) ≡ false
any-select_none q p [] h = refl
any-select_none q p (j ∷ js) h = ground (arith, any-select_none q p js)

select-TableOk : (p : Job → Bool) (js : List Job) → TableOk js → TableOk (select p js)
select-TableOk p js w = record { rows = all_rows js w.rows; unique = apart js w.unique }
  where
    all_rows : (xs : List Job) → All RowOk xs → All RowOk (select p xs)
    all_rows [] a = tt
    all_rows (x ∷ xs) a =
        let rest = all_rows xs a.1 in
        elim (Bool-cases (p x)) [ inl e ↦ rw e (a.0, rest) | inr e ↦ rw e rest ]

    apart : (xs : List Job) → Unique xs → Unique (select p xs)
    apart [] u = tt
    apart (x ∷ xs) u =
        let rest = apart xs u.1 in
        elim (Bool-cases (p x)) [
          | inl e ↦ rw e (any-select_none (clash x) p xs u.0, rest)
          | inr e ↦ rw e rest
        ]

pub delete_job-TableOk :
    (caller : Caller) (db : Db) (id : String)
    → TableOk db.jobs
    → OnOk (λ d. TableOk d.jobs) (delete_job caller db id)
unfolding delete_job delete_job_rows
delete_job-TableOk caller db id w =
    control_job-OnOk TableOk caller db AuditAction.deleted id terminal_states _
      (λ job now _ h.
        OnOk-bind (Changed TableOk)
          (guard ((delete_job_rows db job.id).1 == 1) changed_while_locked) _
          λ u _. select-TableOk (λ j. not (str_eq j.id job.id)) db.jobs w)
      w
