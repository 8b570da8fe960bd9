-- ===== src/Driver/Barrier/Fires.antt =====
-- About fireBarrierIfComplete of internal/core/driver.go: the jobs table it leaves.
use go_flywheel.Base.{
  Bool, Bool-cases, Option, String, [], any, find, inl, inr, none, refl, some, ◌∷◌, ◌≡◌,
}
use go_flywheel.Driver.Barrier.{
  barrier_of, by_id, clear_barrier, enqueue_continuation, fire_barrier_if_complete, fire_pending,
  follow_up_of_spec, is_pending_child, spec_defaults,
}
use go_flywheel.Driver.FollowUps.Chunks.{build_child_row-RowOk}
use go_flywheel.Env.{Ctx}
use go_flywheel.Insert.Conflict.{conflict_insert_chunk}
use go_flywheel.Insert.Row.{build_child_row}
use go_flywheel.Rows.{BarrierSpec, Db, Job}
use go_flywheel.Store.Unique.{Tame}
use go_flywheel.Store.Wf.{RowOk, TableOk, conflict_insert_chunk-TableOk, update_where-TableOk}
use go_flywheel.Types.{InsertSource, OnOk, OnOk-at, OnOk-bind, Result, ok}

clear_barrier-RowOk : (j : Job) → RowOk j → RowOk (clear_barrier j)
unfolding clear_barrier
clear_barrier-RowOk j w = record {
  leased = w.leased;
  lease_ends = w.lease_ends;
  finalized = w.finalized;
  barrier_whole = refl;
}

clear_barrier-Tame : (j : Job) → Tame j (clear_barrier j)
unfolding clear_barrier
clear_barrier-Tame j = record {
  same_id = refl;
  same_key = refl;
  same_active_key = refl;
  live_before = λ h. h;
}

enqueue_continuation-TableOk :
    (c : Ctx) (db : Db) (parent_id spawned_by kind : String) (spec : BarrierSpec)
    → TableOk db.jobs
    → OnOk (λ d. TableOk d.jobs) (enqueue_continuation c db parent_id spawned_by kind spec)
unfolding enqueue_continuation
enqueue_continuation-TableOk c db parent_id spawned_by kind spec w =
    OnOk-bind (λ d. TableOk d.jobs) row _
      λ j e.
        OnOk-bind (λ d. TableOk d.jobs) (conflict_insert_chunk c db.jobs (j ∷ [])) _
          λ r e'.
            update_where-TableOk (by_id parent_id) clear_barrier (λ x _. clear_barrier-RowOk x)
              (λ x _. clear_barrier-Tame x) r.0
              (OnOk-at (λ x. TableOk x.0) (conflict_insert_chunk c db.jobs (j ∷ [])) r
                (conflict_insert_chunk-TableOk c db.jobs (j ∷ []) w (
                  OnOk-at RowOk row j
                      (build_child_row-RowOk c (c.lib.new_id db.minted)
                        (follow_up_of_spec kind spec parent_id) parent_id spawned_by
                        InsertSource.barrier (some (spec_defaults spec)))
                      e,
                  tt,
                ))
                e')
  where
    row : Result Job
    row =
        build_child_row c (c.lib.new_id db.minted) (follow_up_of_spec kind spec parent_id) parent_id
          spawned_by InsertSource.barrier (some (spec_defaults spec))

pub fire-TableOk :
    (c : Ctx) (db : Db) (parent_id spawned_by : String)
    → TableOk db.jobs
    → OnOk (λ r. TableOk r.0.jobs) (fire_barrier_if_complete c db parent_id spawned_by)
unfolding fire_barrier_if_complete
fire-TableOk c db parent_id spawned_by w = go (barrier_of (find (by_id parent_id) db.jobs))
  where
    go :
        (o : Option (String × BarrierSpec))
        → OnOk (λ r. TableOk r.0.jobs) (fire_pending c db parent_id spawned_by o)
    go none = w
    go (some (kind, spec)) = elim (Bool-cases (any (is_pending_child parent_id) db.jobs)) [
      | inl e ↦ rw e w
      | inr e ↦ rw e (
          OnOk-bind (λ r. TableOk r.0.jobs)
            (enqueue_continuation c db parent_id spawned_by kind spec) _
            λ d e'.
              OnOk-at (λ x. TableOk x.jobs)
                (enqueue_continuation c db parent_id spawned_by kind spec) d
                (enqueue_continuation-TableOk c db parent_id spawned_by kind spec w) e')
    ]

-- A barrier check of a well-formed table that succeeds, whether or not it fires, leaves the jobs
-- table well formed.
pub fire_keeps_table :
    (c : Ctx) (db : Db) (parent_id spawned_by : String) (r : Db × Bool)
    → TableOk db.jobs
    → fire_barrier_if_complete c db parent_id spawned_by ≡ ok r
    → TableOk r.0.jobs
fire_keeps_table c db parent_id spawned_by r w =
    OnOk-at (λ x. TableOk x.0.jobs) (fire_barrier_if_complete c db parent_id spawned_by) r
      (fire-TableOk c db parent_id spawned_by w)
