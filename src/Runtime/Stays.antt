-- ===== src/Runtime/Stays.antt =====
-- About insertSkippingConflicts, insert, insertFollowUps and fireBarrierIfComplete of internal/core:
-- the rows that were there.
use go_flywheel.Base.{
  Bool, Bool-cases, List, Option, String, [], any, false, find, if◌then◌else◌, inl, inr, is_some,
  leb, length, none, refl, some, suc, true, ℕ, ◌&&◌, ◌++◌, ◌+◌, ◌||◌, ◌∷◌,
}
use go_flywheel.Driver.Barrier.{
  barrier_of, by_id, clear_barrier, enqueue_continuation, fire_barrier_if_complete, fire_pending,
  follow_up_of_spec, is_pending_child, spec_defaults,
}
use go_flywheel.Driver.Finalize.{fire_parent, fired_db, spawn}
use go_flywheel.Driver.FollowUps.{build_children, chunks, insert_chunks, insert_follow_ups}
use go_flywheel.Driver.Opts.{DriverOpts, follow_up_chunk_size, follow_up_limit}
use go_flywheel.Driver.Sweep.{ReclaimedJob, SweepLib}
use go_flywheel.Driver.Sweep.Batch.{crash_stale_stubs, end_batch, fire_parents, parents_of}
use go_flywheel.Env.{Ctx}
use go_flywheel.Insert.Client.{insert, stamp_for, write_on_tx, write_plain}
use go_flywheel.Insert.Conflict.{
  before_create, conflict_insert_chunk, conflicts, insert_skipping_conflicts, prepare,
  skip_conflicts,
}
use go_flywheel.Insert.Row.{InsertOpts, apply_to, build_child_row, build_row}
use go_flywheel.Plan.{FinalizePlan}
use go_flywheel.Rows.{BarrierSpec, Db, Job}
use go_flywheel.Store.Evolves.{
  Evolves, Evolves-append, Evolves-refl, Evolves-stay, Evolves-update, stay,
}
use go_flywheel.Types.{
  Bytes, InsertSource, OnOk, OnOk-at, OnOk-bind, OnOk-map, Result, Time, err, guard, is_terminal,
  ok, state_eq_refl, too_many_follow_ups,
}
use go_flywheel.Work.{FollowUp, RawJob, WorkResult}

-- Statements that move no row.
abbrev pub Stays : List Job → List Job → Type 0
Stays = Evolves stay

pub Stays-refl : (js : List Job) → Stays js js
Stays-refl = Evolves-refl stay state_eq_refl

pub Stays-trans : (js ks ls : List Job) → Stays js ks → Stays ks ls → Stays js ls
Stays-trans = Evolves-stay stay refl

Stays-append : (js ks : List Job) → Stays js (js ++ ks)
Stays-append = Evolves-append stay state_eq_refl refl

skip_conflicts-Stays : (table js : List Job) → Stays table (skip_conflicts table js)
unfolding skip_conflicts
skip_conflicts-Stays table [] = Stays-refl table
skip_conflicts-Stays table (j ∷ js) = elim (Bool-cases (conflicts table j)) [
  | inl e ↦ rw e (skip_conflicts-Stays table js)
  | inr e ↦ rw e (
      Stays-trans table (table ++ j ∷ []) _ (Stays-append table (j ∷ []))
        (skip_conflicts-Stays (table ++ j ∷ []) js))
]

insert_skipping_conflicts-Stays :
    (c : Ctx) (table js : List Job) → OnOk (Stays table) (insert_skipping_conflicts c table js)
unfolding insert_skipping_conflicts
insert_skipping_conflicts-Stays c table js =
    OnOk-bind (Stays table) (prepare c js) _ λ prepared _. skip_conflicts-Stays table prepared

conflict_insert_chunk-Stays :
    (c : Ctx) (table js : List Job) → OnOk (λ r. Stays table r.0) (conflict_insert_chunk c table js)
unfolding conflict_insert_chunk
conflict_insert_chunk-Stays c table [] = Stays-refl table
conflict_insert_chunk-Stays c table (j ∷ js) =
    OnOk-bind (λ r. Stays table r.0) (insert_skipping_conflicts c table (j ∷ js)) _
      λ t e.
        OnOk-at (Stays table) (insert_skipping_conflicts c table (j ∷ js)) t
          (insert_skipping_conflicts-Stays c table (j ∷ js)) e

write_on_tx-Stays :
    (c : Ctx) (db : Db) (row : Job) → OnOk (λ r. Stays db.jobs r.0.jobs) (write_on_tx c db row)
unfolding write_on_tx
write_on_tx-Stays c db row =
    OnOk-bind (λ r. Stays db.jobs r.0.jobs) (insert_skipping_conflicts c db.jobs (row ∷ [])) _
      λ t e.
        OnOk-at (Stays db.jobs) (insert_skipping_conflicts c db.jobs (row ∷ [])) t
          (insert_skipping_conflicts-Stays c db.jobs (row ∷ [])) e

write_plain-Stays :
    (c : Ctx) (db : Db) (row : Job) → OnOk (λ r. Stays db.jobs r.0.jobs) (write_plain c db row)
unfolding write_plain
write_plain-Stays c db row =
    OnOk-bind (λ r. Stays db.jobs r.0.jobs) (before_create c row) _
      λ row' _. elim (Bool-cases (conflicts db.jobs row')) [
        | inl k ↦ rw k (Stays-refl db.jobs)
        | inr k ↦ rw k (Stays-append db.jobs (row' ∷ []))
      ]

pub insert-Stays :
    (c : Ctx) (db : Db) (kind : String) (payload : Bytes) (opts : InsertOpts)
    (source : InsertSource) (slug : String)
    → OnOk (λ r. Stays db.jobs r.0.jobs) (insert c db kind payload opts source slug)
unfolding insert
insert-Stays c db kind payload opts source slug =
    let opts' = apply_to (c.defaults_for kind) opts in
    OnOk-bind (λ r. Stays db.jobs r.0.jobs) (stamp_for c kind opts' source slug) _
      λ st _.
        let row = build_row c (c.lib.new_id db.minted) kind payload opts' st in
        let db' : Db = record db { minted = suc db.minted } in
        elim (Bool-cases
          (opts'.on_tx && (is_some row.unique_key || is_some row.unique_active_key))) [
            | inl k ↦ rw k (write_on_tx-Stays c db' row)
            | inr k ↦ rw k (write_plain-Stays c db' row)
          ]

insert_chunks-Stays :
    (c : Ctx) (table : List Job) (n : ℕ) (cs : List (List Job))
    → OnOk (λ r. Stays table r.0) (insert_chunks c table n cs)
unfolding insert_chunks
insert_chunks-Stays c table n [] = Stays-refl table
insert_chunks-Stays c table n (chunk ∷ rest) =
    OnOk-bind (λ r. Stays table r.0) (conflict_insert_chunk c table chunk) _
      λ r e.
        OnOk-map (λ x. Stays r.0 x.0) (λ x. Stays table x.0)
          (insert_chunks c r.0 (n + length r.1) rest)
          (λ x. Stays-trans table r.0 x.0 (
            OnOk-at (λ y. Stays table y.0) (conflict_insert_chunk c table chunk) r
              (conflict_insert_chunk-Stays c table chunk) e))
          (insert_chunks-Stays c r.0 (n + length r.1) rest)

pub insert_follow_ups-Stays :
    (c : Ctx) (o : DriverOpts) (db : Db) (fus : List FollowUp) (parent_id : String)
    → OnOk (λ r. Stays db.jobs r.0.jobs) (insert_follow_ups c o db fus parent_id)
unfolding insert_follow_ups
insert_follow_ups-Stays c o db fus parent_id =
    OnOk-bind (λ r. Stays db.jobs r.0.jobs)
      (guard (leb (length fus) (follow_up_limit o)) too_many_follow_ups) _
      λ u _.
        OnOk-bind (λ r. Stays db.jobs r.0.jobs) (build_children c db.minted fus parent_id) _
          λ rows e.
            let cs = chunks (length rows) (follow_up_chunk_size o) rows in
            OnOk-bind (λ r. Stays db.jobs r.0.jobs) (insert_chunks c db.jobs 0 cs) _
              λ r e'.
                OnOk-at (λ x. Stays db.jobs x.0) (insert_chunks c db.jobs 0 cs) r
                  (insert_chunks-Stays c db.jobs 0 cs) e'

enqueue_continuation-Stays :
    (c : Ctx) (db : Db) (parent_id spawned_by kind : String) (spec : BarrierSpec)
    → OnOk (λ d. Stays db.jobs d.jobs) (enqueue_continuation c db parent_id spawned_by kind spec)
unfolding enqueue_continuation clear_barrier
enqueue_continuation-Stays c db parent_id spawned_by kind spec =
    OnOk-bind (λ d. Stays db.jobs d.jobs)
      (build_child_row c (c.lib.new_id db.minted) (follow_up_of_spec kind spec parent_id) parent_id
        spawned_by InsertSource.barrier (some (spec_defaults spec)))
      _
      λ j _.
        OnOk-bind (λ d. Stays db.jobs d.jobs) (conflict_insert_chunk c db.jobs (j ∷ [])) _
          λ r e.
            Stays-trans db.jobs r.0 _
              (OnOk-at (λ x. Stays db.jobs x.0) (conflict_insert_chunk c db.jobs (j ∷ [])) r
                (conflict_insert_chunk-Stays c db.jobs (j ∷ [])) e)
              (Evolves-update stay state_eq_refl (by_id parent_id) clear_barrier
                (λ x _. (refl, state_eq_refl x.state)) r.0)

pub fire-Stays :
    (c : Ctx) (db : Db) (parent_id spawned_by : String)
    → OnOk (λ r. Stays db.jobs r.0.jobs) (fire_barrier_if_complete c db parent_id spawned_by)
unfolding fire_barrier_if_complete
fire-Stays c db parent_id spawned_by = go (barrier_of (find (by_id parent_id) db.jobs))
  where
    go :
        (o : Option (String × BarrierSpec))
        → OnOk (λ r. Stays db.jobs r.0.jobs) (fire_pending c db parent_id spawned_by o)
    go none = Stays-refl db.jobs
    go (some (kind, spec)) = elim (Bool-cases (any (is_pending_child parent_id) db.jobs)) [
      | inl e ↦ rw e (Stays-refl db.jobs)
      | inr e ↦ rw e (
          OnOk-bind (λ r. Stays db.jobs r.0.jobs)
            (enqueue_continuation c db parent_id spawned_by kind spec) _
            λ d e'.
              OnOk-at (λ x. Stays db.jobs x.jobs)
                (enqueue_continuation c db parent_id spawned_by kind spec) d
                (enqueue_continuation-Stays c db parent_id spawned_by kind spec) e')
    ]

fired_db-Stays :
    (js : List Job) (r : Result (Db × Bool))
    → OnOk (λ x. Stays js x.0.jobs) r
    → OnOk (λ d. Stays js d.jobs) (fired_db r)
fired_db-Stays js (ok (d, b)) v = v
fired_db-Stays js (err e) v = tt

fire_parent-Stays :
    (c : Ctx) (db : Db) (raw : RawJob) (p : FinalizePlan)
    → OnOk (λ d. Stays db.jobs d.jobs) (fire_parent c db raw p)
unfolding fire_parent
fire_parent-Stays c db raw p = go raw.parent_job_id (is_terminal p.job_state)
  where
    go :
        (o : Option String) (b : Bool)
        → OnOk
            (λ d. Stays db.jobs d.jobs)
            (elim o [
              | none ↦ ok db
              | some parent ↦
                  if b then fired_db (fire_barrier_if_complete c db parent raw.id) else ok db
            ])
    go none b = Stays-refl db.jobs
    go (some parent) true = fired_db-Stays db.jobs _ (fire-Stays c db parent raw.id)
    go (some parent) false = Stays-refl db.jobs

pub spawn-Stays :
    (c : Ctx) (o : DriverOpts) (db : Db) (raw : RawJob) (result : WorkResult) (p : FinalizePlan)
    → OnOk (λ r. Stays db.jobs r.0.jobs) (spawn c o db raw result p)
unfolding spawn
spawn-Stays c o db raw result p =
    OnOk-bind (λ r. Stays db.jobs r.0.jobs) (children p.follow_ups) _
      λ r e.
        OnOk-bind (λ r. Stays db.jobs r.0.jobs) (fire_parent c r.0 raw p) _
          λ d e'.
            Stays-trans db.jobs r.0.jobs d.jobs
              (OnOk-at (λ x. Stays db.jobs x.0.jobs) (children p.follow_ups) r
                (children_stay p.follow_ups) e)
              (OnOk-at (λ x. Stays r.0.jobs x.jobs) (fire_parent c r.0 raw p) d
                (fire_parent-Stays c r.0 raw p) e')
  where
    children : Bool → Result (Db × ℕ)
    children b = if b then insert_follow_ups c o db result.follow_ups raw.id else ok (db, 0)

    children_stay : (b : Bool) → OnOk (λ x. Stays db.jobs x.0.jobs) (children b)
    children_stay true = insert_follow_ups-Stays c o db result.follow_ups raw.id
    children_stay false = Stays-refl db.jobs

fire_parents-Stays :
    (c : Ctx) (jobs : List ReclaimedJob) (db : Db) (ps : List String)
    → OnOk (λ d. Stays db.jobs d.jobs) (fire_parents c jobs db ps)
unfolding fire_parents
fire_parents-Stays c jobs db [] = Stays-refl db.jobs
fire_parents-Stays c jobs db (p ∷ ps) =
    OnOk-bind (λ d. Stays db.jobs d.jobs) (fire_barrier_if_complete c db p _) _
      λ r e.
        OnOk-map (λ d. Stays r.0.jobs d.jobs) (λ d. Stays db.jobs d.jobs)
          (fire_parents c jobs r.0 ps)
          (λ d. Stays-trans db.jobs r.0.jobs d.jobs (
            OnOk-at (λ x. Stays db.jobs x.0.jobs) (fire_barrier_if_complete c db p _) r
              (fire-Stays c db p _) e))
          (fire_parents-Stays c jobs r.0 ps)

pub end_batch-Stays :
    (s : SweepLib) (c : Ctx) (db : Db) (jobs : List ReclaimedJob) (now : Time)
    → OnOk (λ r. Stays db.jobs r.0.jobs) (end_batch s c db jobs now)
unfolding end_batch crash_stale_stubs
end_batch-Stays s c db jobs now =
    OnOk-bind (λ r. Stays db.jobs r.0.jobs)
      (fire_parents c jobs (crash_stale_stubs db jobs now).0 (s.sort_texts (parents_of jobs))) _
      λ d e.
        OnOk-at (λ x. Stays db.jobs x.jobs)
          (fire_parents c jobs (crash_stale_stubs db jobs now).0 (s.sort_texts (parents_of jobs))) d
          (fire_parents-Stays c jobs (crash_stale_stubs db jobs now).0
            (s.sort_texts (parents_of jobs)))
          e
