-- ===== src/Driver/Barrier/Once.antt =====
-- About fireBarrierIfComplete of internal/core/driver.go: when it fires.
use go_flywheel.Base.{
  Bool, Bool-cases, List, Option, String, [], any, false, find, inl, inr, is_some, none, refl, some,
  suc, true, update_where, ◌∷◌, ◌≡◌,
}
use go_flywheel.Driver.Barrier.{
  barrier_of, by_id, clear_barrier, enqueue_continuation, fire_barrier_if_complete, fire_pending,
  follow_up_of_spec, is_pending_child, spec_defaults,
}
use go_flywheel.Driver.Barrier.Continuation.{Continued}
use go_flywheel.Env.{Ctx}
use go_flywheel.Insert.Conflict.{conflict_insert_chunk}
use go_flywheel.Insert.Row.{build_child_row}
use go_flywheel.Rows.{BarrierSpec, Db, Job}
use go_flywheel.Types.{InsertSource, OnOk, OnOk-at, OnOk-bind, ok}

cleared :
    (parent_id : String) (js : List Job)
    → barrier_of (find (by_id parent_id) (update_where (by_id parent_id) clear_barrier js)) ≡ none
unfolding by_id clear_barrier barrier_of
cleared parent_id [] = refl
cleared parent_id (j ∷ js) = elim (Bool-cases (by_id parent_id j)) [
  | inl e ↦ rw e (rw e refl)
  | inr e ↦ rw e (rw e (cleared parent_id js))
]

enqueued-cleared :
    (c : Ctx) (db : Db) (parent_id spawned_by kind : String) (spec : BarrierSpec)
    → OnOk
        (λ d. barrier_of (find (by_id parent_id) d.jobs) ≡ none)
        (enqueue_continuation c db parent_id spawned_by kind spec)
unfolding enqueue_continuation
enqueued-cleared c db parent_id spawned_by kind spec =
    OnOk-bind (λ d. barrier_of (find (by_id parent_id) d.jobs) ≡ none)
      (build_child_row c (c.lib.new_id db.minted) (follow_up_of_spec kind spec parent_id) parent_id
        spawned_by InsertSource.barrier (some (spec_defaults spec)))
      _
      λ j _.
        OnOk-bind (λ d. barrier_of (find (by_id parent_id) d.jobs) ≡ none)
          (conflict_insert_chunk c db.jobs (j ∷ [])) _ λ r _. cleared parent_id r.0

-- What a check leaves, by whether it fired.
abbrev Fired : Db → String → Option (String × BarrierSpec) → Db × Bool → Type 0
Fired db parent_id o r =
    ((r.1 ≡ true) → barrier_of (find (by_id parent_id) r.0.jobs) ≡ none)
    × ((r.1 ≡ true) → any (is_pending_child parent_id) db.jobs ≡ false)
    × ((r.1 ≡ false) → r.0 ≡ db)
    × (is_some o ≡ true → any (is_pending_child parent_id) db.jobs ≡ false → r.1 ≡ true)

fire_pending-Fired :
    (c : Ctx) (db : Db) (parent_id spawned_by : String) (o : Option (String × BarrierSpec))
    → OnOk (Fired db parent_id o) (fire_pending c db parent_id spawned_by o)
unfolding fire_pending
fire_pending-Fired c db parent_id spawned_by none = (λ h. cc, λ h. cc, λ h. refl, λ h k. cc)
fire_pending-Fired c db parent_id spawned_by (some (kind, spec)) =
    elim (Bool-cases (any (is_pending_child parent_id) db.jobs)) [
      | inl e ↦ rw e (λ h. cc, λ h. cc, λ h. refl, λ h k. cc)
      | inr e ↦ rw e (
          OnOk-bind (Fired db parent_id (some (kind, spec)))
            (enqueue_continuation c db parent_id spawned_by kind spec) _
            λ d e'. (
              λ h.
                  OnOk-at (λ x. barrier_of (find (by_id parent_id) x.jobs) ≡ none)
                    (enqueue_continuation c db parent_id spawned_by kind spec) d
                    (enqueued-cleared c db parent_id spawned_by kind spec) e',
              λ h. e,
              λ h. cc,
              λ h k. refl,
            ))
    ]

module _ (c : Ctx) (db : Db) (parent_id spawned_by : String) where
  abbrev held : Option (String × BarrierSpec)
  held = barrier_of (find (by_id parent_id) db.jobs)

  fire-Fired :
      (r : Db × Bool)
      → fire_barrier_if_complete c db parent_id spawned_by ≡ ok r
      → Fired db parent_id held r
  unfolding fire_barrier_if_complete
  fire-Fired r h =
      OnOk-at (Fired db parent_id held) (fire_pending c db parent_id spawned_by held) r
        (fire_pending-Fired c db parent_id spawned_by held) h

-- What a check that fired has enqueued.
abbrev Enqueued : Ctx → Db → String → String × BarrierSpec → Db × Bool → Type 0
Enqueued c db parent_id stored r =
    (r.1 ≡ true)
    → (r.0.minted ≡ suc db.minted)
      × Continued (c.lib.new_id db.minted) parent_id stored.0 stored.1.args db.jobs r.0.jobs

-- After a check that fired a parent's barrier, a check of that parent on the table it left
-- succeeds, fires nothing and changes nothing.
pub fires_once :
    (c c' : Ctx) (db d : Db) (parent_id first_by later_by : String)
    → fire_barrier_if_complete c db parent_id first_by ≡ ok (d, true)
    → fire_barrier_if_complete c' d parent_id later_by ≡ ok (d, false)
unfolding fire_barrier_if_complete fire_pending
fires_once c c' db d parent_id first_by later_by h =
    rw ((fire-Fired c db parent_id first_by (d, true) h).0 refl) refl
