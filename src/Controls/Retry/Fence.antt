-- ===== src/Controls/Retry/Fence.antt =====
-- About RetryJobWithOptions and CancelJob of internal/core/schedule.go and the claims of a job.
use go_flywheel.Base.{
  Bool, Bool-cases, List, Memᴰ, Option, String, [], any, ap, arith, count, false, find, inl, inr,
  none, not, refl, some, str_eq, str_eq_iff, str_eq_refl, sym, true, ◌&&◌, ◌==◌, ◌∙◌, ◌∷◌, ◌≡◌,
}
use go_flywheel.Controls.{
  Caller, breaks_index, control_miss, entry_of, is_locked, lock_job, or_missing, record_audit,
  refusal, update_locked,
}
use go_flywheel.Controls.Retry.{
  RetryOpts, attempt_still_runs, cancel_job, cancel_update, fire_for, name_holder, retry_job,
  retry_on_tx, retry_states, retry_update,
}
use go_flywheel.Driver.Barrier.{clear_barrier, fire_barrier_if_complete}
use go_flywheel.Driver.Barrier.Quiet.{count-fire}
use go_flywheel.Driver.Finalize.{holds_claim}
use go_flywheel.Env.{Ctx}
use go_flywheel.Rows.{Audit, AuditAction, Db, Job, in_scope}
use go_flywheel.Store.Counts.{count-agree, count-update_ends, count_none}
use go_flywheel.Store.Ids.{All-of-Memᴰ, any-Memᴰ, id_names_one}
use go_flywheel.Store.Unique.{Unique}
use go_flywheel.Types.{
  Error, JobState, OnOk, OnOk-at, OnOk-bind, OnOk-map, Result, changed_while_locked, duplicate_key,
  err, guard, job_running, non_terminal_states, ok, state_eq, state_eq_refl, state_in,
}

find-some :
    (q : Job → Bool) (js : List Job) (j : Job) → find q js ≡ some j → (q j ≡ true) × Memᴰ j js
find-some q [] j h = cc
find-some q (x ∷ xs) j h = elim (Bool-cases (q x)) [
  | inl e ↦ let same = head e in (rw (← same) e, Memᴰ.head (sym same))
  | inr e ↦ let (t, m) = find-some q xs j (tail e) in (t, Memᴰ.tail m)
]
  where
    head : q x ≡ true → x ≡ j
    head e = let k : some x ≡ some j = sym (rw e refl) ∙ h in cc

    tail : q x ≡ false → find q xs ≡ some j
    tail e = sym (rw e refl) ∙ h

holds_none :
    (id token : String) (j : Job)
    → state_eq j.state JobState.running ≡ false
    → holds_claim id token j ≡ false
holds_none id token j h = part (in_scope j) (str_eq j.id id) (state_eq j.state JobState.running) _ h
  where
    part : (a b r d : Bool) → r ≡ false → (a && b && r && d) ≡ false
    part a b r d k = ground arith

-- The row that a control locked is the only one of its id, in the state that was read.
locked_all :
    (table : List Job) (id token : String) (job j : Job)
    → Unique table
    → find (λ x. in_scope x && str_eq x.id id) table ≡ some job
    → Memᴰ j table
    → holds_claim id token j ≡ true
    → is_locked job j ≡ true
locked_all table id token job j u found m h =
    let (t, mj) = find-some (λ x. in_scope x && str_eq x.id id) table job found in
    let (scoped, named) = both (in_scope job) (str_eq job.id id) t in
    let of_id = second (in_scope j) (str_eq j.id id) (state_eq j.state JobState.running) _ h in
    let same = (str_eq_iff j.id id).0 of_id ∙ sym ((str_eq_iff job.id id).0 named) in
    id_names_one (is_locked job) table j u m (
      any-Memᴰ (λ x. str_eq j.id x.id && is_locked job x) job table mj
        (all_true _ _ _ _ (rw same (str_eq_refl job.id)) scoped (str_eq_refl job.id)
          (state_eq_refl job.state)))
  where
    both : (a b : Bool) → (a && b) ≡ true → (a ≡ true) × (b ≡ true)
    both a b k = (ground arith, ground arith)

    second : (a b r d : Bool) → (a && b && r && d) ≡ true → b ≡ true
    second a b r d k = ground arith

    all_true :
        (a b r d : Bool) → a ≡ true → b ≡ true → r ≡ true → d ≡ true → (a && (b && r && d)) ≡ true
    all_true a b r d k l m n = ground arith

update_locked-ends :
    (table : List Job) (id token : String) (job : Job) (f : Job → Job)
    → Unique table
    → find (λ x. in_scope x && str_eq x.id id) table ≡ some job
    → ((j : Job) → state_eq (f j).state JobState.running ≡ false)
    → OnOk (λ t. count (holds_claim id token) t ≡ 0) (update_locked table job f)
unfolding update_locked
update_locked-ends table id token job f u found stops =
    OnOk-bind (λ t. count (holds_claim id token) t ≡ 0)
      (guard (not (breaks_index (is_locked job) f table)) duplicate_key) _
      λ a _.
        OnOk-bind (λ t. count (holds_claim id token) t ≡ 0)
          (guard (count (is_locked job) table == 1) changed_while_locked) _
          λ b _.
            let all_gone =
              count-update_ends (holds_claim id token) (is_locked job) f
                (λ j _. holds_none id token (f j) (stops j)) table in
            let covered =
              count-agree (λ j. holds_claim id token j && is_locked job j) (holds_claim id token)
                table
                (All-of-Memᴰ _ table λ j m.
                  implied (holds_claim id token j) (is_locked job j)
                    (locked_all table id token job j u found m)) in
            omega arith
  where
    implied : (a b : Bool) → (a ≡ true → b ≡ true) → (a && b) ≡ a
    implied a b k = ground arith

record_audit-jobs :
    (caller : Caller) (db : Db) (entry : Audit)
    → OnOk (λ d. d.jobs ≡ db.jobs) (record_audit caller db entry)
unfolding record_audit
record_audit-jobs caller db entry =
    OnOk-bind (λ d. d.jobs ≡ db.jobs) (refusal (caller.audit_hook (entry ∷ []))) _ λ a _. refl

fire_for-claim :
    (c : Ctx) (db : Db) (parent : Option String) (id token : String)
    → OnOk
        (λ d. count (holds_claim id token) d.jobs ≡ count (holds_claim id token) db.jobs)
        (fire_for c db parent id)
unfolding fire_for clear_barrier
fire_for-claim c db none id token = refl
fire_for-claim c db (some p) id token = OnOk-bind _ (fire_barrier_if_complete c db p id) _ λ r e.
    OnOk-at (λ x. count (holds_claim id token) x.0.jobs ≡ count (holds_claim id token) db.jobs)
      (fire_barrier_if_complete c db p id) r
      (count-fire (holds_claim id token) (holds_none id token) untouched c db p id) e
  where
    untouched : (j : Job) → holds_claim id token (clear_barrier j) ≡ holds_claim id token j
    untouched j = refl

or_missing-find : (o : Option Job) (j : Job) → or_missing o ≡ ok j → o ≡ some j
or_missing-find none j h = cc
or_missing-find (some x) j h = cc

-- After a cancel of a table whose unique indexes hold, no claim of the job holds, whatever its token.
pub cancel_ends_claim :
    (caller : Caller) (db d : Db) (id token : String)
    → Unique db.jobs
    → cancel_job caller db id ≡ ok d
    → any (holds_claim id token) d.jobs ≡ false
unfolding cancel_job lock_job cancel_update
cancel_ends_claim caller db d id token u h =
    count_none (holds_claim id token) d.jobs (OnOk-at Gone (cancel_job caller db id) d chain h)
  where
    Gone : Db → Type 0
    Gone x = count (holds_claim id token) x.jobs ≡ 0

    chain : OnOk Gone (cancel_job caller db id)
    chain = OnOk-bind Gone (refusal caller.refused) _ λ a _.
        OnOk-bind Gone (lock_job db.jobs id) _ λ job found.
          OnOk-bind Gone (guard (state_in job.state non_terminal_states) (control_miss job.state)) _
            λ b _.
              OnOk-bind Gone (update_locked db.jobs job (cancel_update caller.ctx.now)) _ λ t e.
                OnOk-bind Gone (fire_for caller.ctx (record db { jobs = t }) job.parent_job_id id) _
                  λ d' e'.
                    let gone =
                      OnOk-at (λ x. count (holds_claim id token) x ≡ 0)
                        (update_locked db.jobs job (cancel_update caller.ctx.now)) t
                        (update_locked-ends db.jobs id token job (cancel_update caller.ctx.now) u
                          (or_missing-find _ job found) (λ j. refl))
                        e in
                    let kept =
                      OnOk-at
                        (λ x. count (holds_claim id token) x.jobs ≡ count (holds_claim id token) t)
                        (fire_for caller.ctx (record db { jobs = t }) job.parent_job_id id) d'
                        (fire_for-claim caller.ctx (record db { jobs = t }) job.parent_job_id id
                          token)
                        e' in
                    OnOk-map (λ x. x.jobs ≡ d'.jobs) Gone
                      (record_audit caller d'
                        (entry_of caller.ctx id AuditAction.cancelled job.state))
                      (λ x k. ap (count (holds_claim id token)) k ∙ (kept ∙ gone))
                      (record_audit-jobs caller d' _)

pub name_holder-OnOk {κ} :
    (P : Db → Type κ) (table : List Job) (id : String) (r : Result Db)
    → OnOk P r
    → OnOk P (name_holder table id r)
name_holder-OnOk P table id (ok x) k = k
name_holder-OnOk P table id (err x) k = lost x
  where
    lost : (y : Error) → OnOk P (name_holder table id (err y))
    lost duplicate_key = tt
    lost _ = tt

-- After a retry of a table whose unique indexes hold, whatever its options, no claim of the job
-- holds, whatever its token.
pub retry_ends_claim :
    (caller : Caller) (db d : Db) (id token : String) (o : RetryOpts)
    → Unique db.jobs
    → retry_job caller db id o ≡ ok d
    → any (holds_claim id token) d.jobs ≡ false
unfolding retry_job lock_job retry_update
retry_ends_claim caller db d id token o u h =
    count_none (holds_claim id token) d.jobs (OnOk-at Gone (retry_job caller db id o) d outer h)
  where
    Gone : Db → Type 0
    Gone x = count (holds_claim id token) x.jobs ≡ 0

    chain : OnOk Gone (retry_on_tx caller db id o)
    chain = OnOk-bind Gone (lock_job db.jobs id) _ λ job found.
        OnOk-bind Gone (guard (state_in job.state (retry_states o)) (control_miss job.state)) _
          λ b _.
            OnOk-bind Gone
              (guard
                (not (
                  state_eq job.state JobState.cancelled
                  && o.force
                  && not o.allow_running
                  && attempt_still_runs db.runs job))
                job_running)
              _
              λ b' _.
                OnOk-bind Gone (update_locked db.jobs job (retry_update o caller.ctx.now)) _ λ t e.
                  let gone =
                    OnOk-at (λ x. count (holds_claim id token) x ≡ 0)
                      (update_locked db.jobs job (retry_update o caller.ctx.now)) t
                      (update_locked-ends db.jobs id token job (retry_update o caller.ctx.now) u
                        (or_missing-find _ job found) (λ j. refl))
                      e in
                  OnOk-map (λ x. x.jobs ≡ t) Gone
                    (record_audit caller (record db { jobs = t })
                      (entry_of caller.ctx id AuditAction.retried job.state))
                    (λ x k. ap (count (holds_claim id token)) k ∙ gone)
                    (record_audit-jobs caller (record db { jobs = t }) _)

    outer : OnOk Gone (retry_job caller db id o)
    outer =
        OnOk-bind Gone (refusal caller.refused) _
          λ a _. name_holder-OnOk Gone db.jobs id (retry_on_tx caller db id o) chain
