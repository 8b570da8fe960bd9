-- ===== src/Driver/Finalize/Safe.antt =====
-- About Finalize of internal/core/driver.go: the jobs table it leaves.
use go_flywheel.Base.{
  Bool, List, Option, String, any, ap, arith, false, find, if◌then◌else◌, is_some, none, not, refl,
  some, sym, true, ℕ, ◌∙◌, ◌≡◌,
}
use go_flywheel.Driver.Barrier.{fire_barrier_if_complete}
use go_flywheel.Driver.Barrier.Fires.{fire-TableOk}
use go_flywheel.Driver.Finalize.{
  FinalizeOutcome, advance, barrier_columns, finalize, finalize_run_row, fire_parent, fired_db,
  holds_claim, marshal_run_output, or_run_missing, run_is, spawn, with_barrier,
}
use go_flywheel.Driver.FollowUps.{insert_follow_ups}
use go_flywheel.Driver.FollowUps.Chunks.{insert_follow_ups-TableOk}
use go_flywheel.Driver.Opts.{DriverOpts, max_output_bytes}
use go_flywheel.Env.{Ctx, Lib}
use go_flywheel.Plan.{FinalizePlan, job_finalize_update, plan_finalize}
use go_flywheel.Rows.{BarrierSpec, Db, Job}
use go_flywheel.Store.Unique.{Tame}
use go_flywheel.Store.Wf.{RowOk, TableOk, update_where-TableOk}
use go_flywheel.Types.{
  JobState, OnOk, OnOk-at, OnOk-bind, Result, Time, err, is_terminal, ok, state_eq,
}
use go_flywheel.Work.{RawJob, WorkErr, WorkResult}

record PlanOk (p : FinalizePlan) : Type 0 where
  ends : is_terminal p.job_state ≡ is_some p.finalized_at
  stops : state_eq p.job_state JobState.running ≡ false

plan_finalize-PlanOk :
    (lib : Lib) (raw : RawJob) (result : WorkResult) (work_err : Option WorkErr) (at : Time)
    → PlanOk (plan_finalize lib raw result work_err at)
unfolding plan_finalize
plan_finalize-PlanOk lib raw result work_err at = record {
  ends = ground arith;
  stops = ground arith;
}

pub held_running :
    (id token : String) (j : Job) → holds_claim id token j ≡ true → j.state ≡ JobState.running
held_running id token j h = state_running j.state (ground arith)
  where
    state_running : (s : JobState) → state_eq s JobState.running ≡ true → s ≡ JobState.running
    state_running s e = ground arith

with_barrier-RowOk :
    (cols : Option (String × BarrierSpec)) (j : Job) → RowOk j → RowOk (with_barrier cols j)
unfolding with_barrier
with_barrier-RowOk none j w = w
with_barrier-RowOk (some (kind, spec)) j w = record {
  leased = w.leased;
  lease_ends = w.lease_ends;
  finalized = w.finalized;
  barrier_whole = refl;
}

with_barrier-Tame :
    (cols : Option (String × BarrierSpec)) (j k : Job) → Tame j k → Tame j (with_barrier cols k)
unfolding with_barrier
with_barrier-Tame none j k t = t
with_barrier-Tame (some (kind, spec)) j k t = record {
  same_id = t.same_id;
  same_key = t.same_key;
  same_active_key = t.same_active_key;
  live_before = t.live_before;
}

job_finalize_update-RowOk :
    (p : FinalizePlan) (at : Time) (j : Job)
    → PlanOk p
    → j.state ≡ JobState.running
    → RowOk j
    → RowOk (job_finalize_update p at j)
unfolding job_finalize_update
job_finalize_update-RowOk p at j ok_plan ran w = record {
  leased = ok_plan.stops;
  lease_ends = refl;
  finalized =
      finalized_lem p.finalized_at j.finalized_at (is_terminal p.job_state) ok_plan.ends
        (sym w.finalized ∙ ap is_terminal ran);
  barrier_whole = w.barrier_whole;
}
  where
    finalized_lem :
        (new old : Option Time) (b : Bool)
        → b ≡ is_some new
        → is_some old ≡ false
        → b ≡ is_some {A = Time} (elim new [ none ↦ old | some t ↦ some t ])
    finalized_lem none old b e f = e ∙ sym f
    finalized_lem (some t) old b e f = e

job_finalize_update-Tame :
    (p : FinalizePlan) (at : Time) (j : Job)
    → j.state ≡ JobState.running
    → Tame j (job_finalize_update p at j)
unfolding job_finalize_update
job_finalize_update-Tame p at j ran = record {
  same_id = refl;
  same_key = refl;
  same_active_key = refl;
  live_before = λ h. rw ran refl;
}

advance-TableOk :
    (p : FinalizePlan) (at : Time) (cols : Option (String × BarrierSpec)) (raw : RawJob)
    (js : List Job)
    → PlanOk p
    → TableOk js
    → TableOk (advance p at cols raw js)
unfolding advance
advance-TableOk p at cols raw js good w =
    update_where-TableOk (holds_claim raw.id raw.lease_token)
      (λ j. with_barrier cols (job_finalize_update p at j))
      (λ j h v.
        with_barrier-RowOk cols (job_finalize_update p at j)
          (job_finalize_update-RowOk p at j good (held_running raw.id raw.lease_token j h) v))
      (λ j h.
        with_barrier-Tame cols j (job_finalize_update p at j)
          (job_finalize_update-Tame p at j (held_running raw.id raw.lease_token j h)))
      js w

fire_parent-TableOk :
    (c : Ctx) (db : Db) (raw : RawJob) (p : FinalizePlan)
    → TableOk db.jobs
    → OnOk (λ d. TableOk d.jobs) (fire_parent c db raw p)
unfolding fire_parent
fire_parent-TableOk c db raw p w = go raw.parent_job_id (is_terminal p.job_state)
  where
    fired :
        (r : Result (Db × Bool))
        → OnOk (λ x. TableOk x.0.jobs) r
        → OnOk (λ d. TableOk d.jobs) (fired_db r)
    fired (ok (d, b)) v = v
    fired (err e) v = tt

    go :
        (o : Option String) (b : Bool)
        → OnOk
            (λ d. TableOk d.jobs)
            (elim o [
              | none ↦ ok db
              | some parent ↦
                  if b then fired_db (fire_barrier_if_complete c db parent raw.id) else ok db
            ])
    go none b = w
    go (some parent) true =
        fired (fire_barrier_if_complete c db parent raw.id) (fire-TableOk c db parent raw.id w)
    go (some parent) false = w

spawn-TableOk :
    (c : Ctx) (o : DriverOpts) (db : Db) (raw : RawJob) (result : WorkResult) (p : FinalizePlan)
    → TableOk db.jobs
    → OnOk (λ r. TableOk r.0.jobs) (spawn c o db raw result p)
unfolding spawn
spawn-TableOk c o db raw result p w =
    OnOk-bind (λ r. TableOk r.0.jobs) (children p.follow_ups) _
      λ r e.
        OnOk-bind (λ r. TableOk r.0.jobs) (fire_parent c r.0 raw p) _
          λ d e'.
            OnOk-at (λ x. TableOk x.jobs) (fire_parent c r.0 raw p) d
              (fire_parent-TableOk c r.0 raw p (
                OnOk-at (λ x. TableOk x.0.jobs) (children p.follow_ups) r (children_ok p.follow_ups)
                  e))
              e'
  where
    children : Bool → Result (Db × ℕ)
    children b = if b then insert_follow_ups c o db result.follow_ups raw.id else ok (db, 0)

    children_ok : (b : Bool) → OnOk (λ x. TableOk x.0.jobs) (children b)
    children_ok true = insert_follow_ups-TableOk c o db result.follow_ups raw.id w
    children_ok false = w

finalize-TableOk :
    (c : Ctx) (o : DriverOpts) (db : Db) (raw : RawJob) (run_id : String) (result : WorkResult)
    (work_err : Option WorkErr) (at : Time)
    → TableOk db.jobs
    → OnOk (λ r. TableOk r.0.jobs) (finalize c o db raw run_id result work_err at)
unfolding finalize finalize_run_row
finalize-TableOk c o db raw run_id result work_err at w =
    let plan = plan_finalize c.lib raw result work_err at in
    OnOk-bind (λ r. TableOk r.0.jobs) (or_run_missing (find (run_is run_id) db.runs)) _
      λ stub _.
        OnOk-bind (λ r. TableOk r.0.jobs) (barrier_columns c o db.jobs raw result plan.follow_ups) _
          λ columns _.
            let advanced : Db = record db { jobs = advance plan at columns raw db.jobs } in
            let good =
              advance-TableOk plan at columns raw db.jobs
                (plan_finalize-PlanOk c.lib raw result work_err at) w in
            let spawned = λ (lost : Bool).
              if lost then ok (advanced, 0) else spawn c o advanced raw result plan in
            OnOk-bind (λ r. TableOk r.0.jobs)
              (spawned (not (any (holds_claim raw.id raw.lease_token) db.jobs))) _
              λ r e.
                OnOk-bind (λ r. TableOk r.0.jobs)
                  (marshal_run_output c.lib (max_output_bytes o) result.output) _
                  λ out _.
                    OnOk-at (λ x. TableOk x.0.jobs)
                      (spawned (not (any (holds_claim raw.id raw.lease_token) db.jobs))) r
                      (elim (not (any (holds_claim raw.id raw.lease_token) db.jobs))
                        as (λ b. OnOk (λ x. TableOk x.0.jobs) (spawned b)) [
                          | true ↦ good
                          | false ↦ spawn-TableOk c o advanced raw result plan good
                        ])
                      e

-- Every finalize that succeeds on a well-formed table, whatever the worker returned and whether or
-- not the claim held, leaves the jobs table well formed: tokens and leases exactly on running rows,
-- finalization times exactly on terminal ones, whole barriers, and no two rows that share an id, a
-- unique key, or an active key while both live.
pub finalize_keeps_table :
    (c : Ctx) (o : DriverOpts) (db : Db) (raw : RawJob) (run_id : String) (result : WorkResult)
    (work_err : Option WorkErr) (at : Time) (r : Db × FinalizeOutcome)
    → TableOk db.jobs
    → finalize c o db raw run_id result work_err at ≡ ok r
    → TableOk r.0.jobs
finalize_keeps_table c o db raw run_id result work_err at r w =
    OnOk-at (λ x. TableOk x.0.jobs) (finalize c o db raw run_id result work_err at) r
      (finalize-TableOk c o db raw run_id result work_err at w)
