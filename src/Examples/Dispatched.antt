-- ===== src/Examples/Dispatched.antt =====
-- The dispatch's theorems at concrete inputs.
use go_flywheel.Base.{[], arith, false, none, refl, some, true, ◌↔◌, ◌∷◌, ◌≡◌, ◌≤◌, ◌⊎◌}
use go_flywheel.Base.Int.{pos, ◌≤ℤ◌}
use go_flywheel.Dispatch.{Raised, WorkerHooks, claim_and_dispatch, classify, unknown_kind_deferral}
use go_flywheel.Dispatch.Accounts.{Accounted, slots_and_permits-Accounted}
use go_flywheel.Dispatch.Verdicts.{Says, deferral_within_grace, verdict_decides}
use go_flywheel.Env.{Lib}
use go_flywheel.Examples.Data.{child_raw, done, plain_lib}
use go_flywheel.Plan.{plan_finalize}
use go_flywheel.Pool.{Pool}
use go_flywheel.Pool.Steps.{PoolOk}
use go_flywheel.Types.{ErrorClass, JobState, RunOutcome, add_time, ok, permanent, validation}

abbrev hooks : WorkerHooks
hooks = record {
  classifier = some (λ e. some ErrorClass.transient);
  retryable = none;
  timeouter = none;
}

abbrev raised : Raised
raised = record { message = []; undecodable = false; past_deadline = true }

verdict_decides_example :
    let p =
      plan_finalize plain_lib child_raw done
        (some (classify hooks (λ n. pos 5) raised child_raw))
        3000 in
    ((p.job_state ≡ JobState.discarded) ↔ (
      (false ≡ true)
      ⊎ (child_raw.max_attempts ≤ℤ pos child_raw.attempt)
      ⊎ (true ≡ false) × (Says hooks raised permanent ⊎ Says hooks raised validation)))
    × ((p.run_outcome ≡ RunOutcome.timeout)
        ↔ (false ≡ false) × ((true ≡ true) ⊎ Says hooks raised ErrorClass.timeout))
verdict_decides_example =
    verdict_decides plain_lib hooks (λ n. pos 5) raised child_raw done 3000 refl refl

abbrev ladder_lib : Lib
ladder_lib = record plain_lib { exponential = λ base most attempt. pos 400 }

deferred : unknown_kind_deferral ladder_lib 1000 1200 1 (pos 500) ≡ some (pos 300)
unfolding unknown_kind_deferral
deferred = refl

deferral_within_grace_example : (add_time 1200 (pos 300) ≤ 1500) × (pos 300 ≤ℤ pos 400)
deferral_within_grace_example =
    deferral_within_grace ladder_lib 1000 1200 1 (pos 500) (pos 300) (omega arith) deferred

-- Four slots, three of them held, two for the claim.
abbrev busy_pool : Pool
busy_pool = record {
  size = 4;
  inline = false;
  limit = 4;
  held = 3;
  running = 1;
  idle_closed = false;
  freed = 0;
}

busy_pool-PoolOk : PoolOk busy_pool
busy_pool-PoolOk = record { some_slot = omega arith; within = omega arith; idle_iff = refl }

slots_and_permits-Accounted_example :
    Accounted 2 2 busy_pool
      (claim_and_dispatch ("default" ∷ []) 2 2 busy_pool (ok (child_raw ∷ [])))
slots_and_permits-Accounted_example =
    slots_and_permits-Accounted ("default" ∷ []) 2 2 busy_pool (ok (child_raw ∷ [])) (omega arith)
      busy_pool-PoolOk

-- A pool of one slot, reserved for the claim: the job has ended when the claim returns.
abbrev single_pool : Pool
single_pool = record {
  size = 1;
  inline = true;
  limit = 1;
  held = 1;
  running = 0;
  idle_closed = false;
  freed = 0;
}

single_dispatch :
    (claim_and_dispatch ("default" ∷ []) 1 1 single_pool (ok (child_raw ∷ []))).pool
    ≡ some (record single_pool { held = 0; idle_closed = true; freed = 1 })
unfolding claim_and_dispatch go_flywheel.Dispatch.dispatch_batch go_flywheel.Pool.release
single_dispatch = refl
