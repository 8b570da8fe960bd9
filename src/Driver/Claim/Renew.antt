-- ===== src/Driver/Claim/Renew.antt =====
-- About RenewLease of internal/core/driver.go: the jobs table it leaves.
use go_flywheel.Base.{Bool, String, arith, refl, some, str_eq, sym, true, ◌&&◌, ◌∙◌, ◌≡◌}
use go_flywheel.Driver.Claim.{renew_lease}
use go_flywheel.Driver.Finalize.{holds_claim}
use go_flywheel.Rows.{Db, Job, in_scope}
use go_flywheel.Store.Wf.{TableOk, update_where-TableOk}
use go_flywheel.Types.{JobState, Time, state_eq}

held_running :
    (id token : String) (j : Job)
    → holds_claim id token j ≡ true
    → (state_eq j.state JobState.running ≡ true)
held_running id token j h =
    part (in_scope j) (str_eq j.id id) (state_eq j.state JobState.running) _ h
  where
    part : (a b r d : Bool) → (a && b && r && d) ≡ true → r ≡ true
    part a b r d k = ground arith

pub renew_lease-TableOk :
    (now : Time) (db : Db) (id token : String) (until : Time)
    → TableOk db.jobs
    → TableOk (renew_lease now db id token until).0.jobs
unfolding renew_lease
renew_lease-TableOk now db id token until w =
    update_where-TableOk (holds_claim id token)
      (λ j. record j { leased_until = some until; updated_at = now })
      (λ j h v. record {
        leased = v.leased;
        lease_ends = sym v.leased ∙ held_running id token j h;
        finalized = v.finalized;
        barrier_whole = v.barrier_whole;
      })
      (λ j h. record {
        same_id = refl;
        same_key = refl;
        same_active_key = refl;
        live_before = λ k. k;
      })
      db.jobs w
