-- ===== src/Runtime/Attempts.antt =====
-- About Dequeue, RenewLease and Finalize of internal/core: how they move a job's state.
use go_flywheel.Base.{
  Bool, Bool-cases, List, Option, String, any, arith, false, find, if◌then◌else◌, inl, inr, none,
  not, refl, some, str_eq, str_mem, true, ◌&&◌, ◌≡◌,
}
use go_flywheel.Driver.Claim.{
  ClaimRequest, asks_nothing, chosen, claim, claims_before, dequeue, eligible, renew_lease,
}
use go_flywheel.Driver.Claim.Exclusive.{eligible_state}
use go_flywheel.Driver.Finalize.{
  advance, barrier_columns, finalize, finalize_run_row, holds_claim, marshal_run_output,
  or_run_missing, run_is, settle, spawn, with_barrier,
}
use go_flywheel.Driver.Finalize.Safe.{held_running}
use go_flywheel.Driver.Opts.{DriverOpts, max_output_bytes}
use go_flywheel.Env.{Ctx, Lib}
use go_flywheel.Insert.Conflict.{ids_of}
use go_flywheel.Plan.{FinalizePlan, job_finalize_update, plan_finalize}
use go_flywheel.Rows.{BarrierSpec, Db, Job, in_scope}
use go_flywheel.Runtime.Moves.{adding, ended_states, moved, moved_refl, moved_there, moving, only}
use go_flywheel.Runtime.Stays.{Stays, spawn-Stays}
use go_flywheel.Store.Evolves.{Evolves, Evolves-refl, Evolves-stay, Evolves-update}
use go_flywheel.Store.Ids.{OrderLaws, chosen_pass, update_by_ids}
use go_flywheel.Store.Wf.{TableOk}
use go_flywheel.Types.{
  JobState, OnOk, OnOk-at, OnOk-bind, OnOk-map, Time, claimable_states, ok, state_eq, state_eq_refl,
  state_in,
}
use go_flywheel.Work.{RawJob, WorkErr, WorkResult}

pub renew_lease-Evolves :
    (now : Time) (db : Db) (id token : String) (until : Time)
    → Evolves (moving state_eq) db.jobs (renew_lease now db id token until).0.jobs
unfolding renew_lease
renew_lease-Evolves now db id token until =
    Evolves-update (moving state_eq) state_eq_refl (holds_claim id token) _
      (λ j _. (refl, state_eq_refl j.state)) db.jobs

module _ (order : List Job → List Job) (laws : OrderLaws claims_before order) (c : Ctx) (db : Db)
    (q : ClaimRequest) where
  pub dequeue-Evolves :
      TableOk db.jobs
      → Evolves
          (moving (moved claimable_states (only JobState.running)))
          db.jobs
          (dequeue order c db q).0.jobs
  unfolding dequeue claim
  dequeue-Evolves w =
      let m = moved claimable_states (only JobState.running) in
      let idle = moved_refl claimable_states (only JobState.running) in
      elim (Bool-cases (asks_nothing q)) [
        | inl e ↦ rw e (Evolves-refl (moving m) idle db.jobs)
        | inr e ↦ rw e (
            rw (update_by_ids test (claim c.now token q.lease) db.jobs ids w.unique picks) (
              Evolves-update (moving m) idle (λ j. test j && (in_scope j && str_mem j.id ids))
                (claim c.now token q.lease)
                (λ j h. (
                  refl,
                  moved_there claimable_states (only JobState.running) j.state JobState.running
                      (eligible_state c.now q.queues q.class q.claim_any j (first (test j) _ h))
                      refl,
                ))
                db.jobs))
      ]
    where
      token : String
      token = c.lib.new_id db.minted

      test : Job → Bool
      test = eligible c.now q.queues q.class q.claim_any

      ids : List String
      ids = ids_of (chosen order c.now q db.jobs)

      picks :
          (id : String) → str_mem id ids ≡ true → any (λ x. str_eq id x.id && test x) db.jobs ≡ true
      picks = chosen_pass claims_before order laws test q.limit db.jobs

      first : (a b : Bool) → (a && b) ≡ true → a ≡ true
      first a b h = ground arith

plan_ends :
    (lib : Lib) (raw : RawJob) (result : WorkResult) (work_err : Option WorkErr) (at : Time)
    → state_in (plan_finalize lib raw result work_err at).job_state ended_states ≡ true
unfolding plan_finalize
plan_ends lib raw result work_err at = ground arith

advanced :
    (p : FinalizePlan) (at : Time) (cols : Option (String × BarrierSpec)) (j : Job)
    → ((with_barrier cols (job_finalize_update p at j)).id ≡ j.id)
      × ((with_barrier cols (job_finalize_update p at j)).state ≡ p.job_state)
unfolding with_barrier job_finalize_update
advanced p at none j = (refl, refl)
advanced p at (some (kind, spec)) j = (refl, refl)

pub from_running :
    (to : List JobState) (s t : JobState)
    → s ≡ JobState.running
    → state_in t to ≡ true
    → moved (only JobState.running) to s t ≡ true
from_running to s t e h = moved_there (only JobState.running) to s t (rw e refl) h

advance-Evolves :
    (p : FinalizePlan) (at : Time) (cols : Option (String × BarrierSpec)) (raw : RawJob)
    (js : List Job)
    → state_in p.job_state ended_states ≡ true
    → Evolves (adding (moved (only JobState.running) ended_states)) js (advance p at cols raw js)
unfolding advance
advance-Evolves p at cols raw js h =
    Evolves-update (adding (moved (only JobState.running) ended_states))
      (moved_refl (only JobState.running) ended_states) (holds_claim raw.id raw.lease_token) _
      (λ j k. (
        (advanced p at cols j).0,
        rw ((advanced p at cols j).1) (
            from_running ended_states j.state p.job_state (held_running raw.id raw.lease_token j k)
              h),
      ))
      js

pub finalize-Evolves :
    (c : Ctx) (o : DriverOpts) (db : Db) (raw : RawJob) (run_id : String) (result : WorkResult)
    (work_err : Option WorkErr) (at : Time)
    → OnOk
        (λ r. Evolves (adding (moved (only JobState.running) ended_states)) db.jobs r.0.jobs)
        (finalize c o db raw run_id result work_err at)
unfolding finalize finalize_run_row settle
finalize-Evolves c o db raw run_id result work_err at =
    let effect = adding (moved (only JobState.running) ended_states) in
    let P : Db → Type 0 = λ d. Evolves effect db.jobs d.jobs in
    let plan = plan_finalize c.lib raw result work_err at in
    let lost = not (any (holds_claim raw.id raw.lease_token) db.jobs) in
    OnOk-bind (λ r. P r.0) (or_run_missing (find (run_is run_id) db.runs)) _
      λ stub _.
        OnOk-bind (λ r. P r.0) (barrier_columns c o db.jobs raw result plan.follow_ups) _
          λ columns _.
            let advanced_db : Db = record db { jobs = advance plan at columns raw db.jobs } in
            let good =
              advance-Evolves plan at columns raw db.jobs
                (plan_ends c.lib raw result work_err at) in
            let spawned = λ (b : Bool).
              if b then ok (advanced_db, 0) else spawn c o advanced_db raw result plan in
            OnOk-bind (λ r. P r.0) (spawned lost) _
              λ r e.
                OnOk-bind (λ r. P r.0) (marshal_run_output c.lib (max_output_bytes o) result.output)
                  _
                  λ out _.
                    OnOk-at (λ x. P x.0) (spawned lost) r
                      (elim lost as (λ b. OnOk (λ x. P x.0) (spawned b)) [
                        | true ↦ good
                        | false ↦
                            OnOk-map (λ x. Stays advanced_db.jobs x.0.jobs) (λ x. P x.0)
                              (spawn c o advanced_db raw result plan)
                              (λ x. Evolves-stay effect refl db.jobs advanced_db.jobs x.0.jobs good)
                              (spawn-Stays c o advanced_db raw result plan)
                      ])
                      e
