-- ===== src/Driver/Barrier/Quiet.antt =====
-- About fireBarrierIfComplete of internal/core/driver.go: the rows that run around it.
use go_flywheel.Base.{
  All, Bool, Bool-cases, List, Option, String, [], any, count, false, find, inl, inr, none, refl,
  some, str_eq, ◌++◌, ◌∙◌, ◌∷◌, ◌≡◌,
}
use go_flywheel.Driver.Barrier.{
  barrier_of, by_id, clear_barrier, enqueue_continuation, fire_barrier_if_complete, fire_pending,
  follow_up_of_spec, is_pending_child, spec_defaults,
}
use go_flywheel.Env.{Ctx, KindDefaults}
use go_flywheel.Insert.Conflict.{
  before_create, conflict_insert_chunk, conflicts, insert_skipping_conflicts, prepare,
  skip_conflicts,
}
use go_flywheel.Insert.Row.{build_child_row, build_row, child_stamp, marshal_args, routed_opts}
use go_flywheel.Rows.{BarrierSpec, Db, Job}
use go_flywheel.Store.Counts.{count-append, count-update_same}
use go_flywheel.Types.{InsertSource, JobState, OnOk, OnOk-at, OnOk-bind, Result, state_eq}
use go_flywheel.Work.{FollowUp}

-- A row that no runner holds.
abbrev pub Idle : Job → Type 0
Idle j = state_eq j.state JobState.running ≡ false

before_create-Idle : (c : Ctx) (j : Job) → Idle j → OnOk Idle (before_create c j)
unfolding before_create
before_create-Idle c j w = elim (Bool-cases (str_eq j.kind "")) [ inl e ↦ rw e tt | inr e ↦ rw e w ]

prepare-Idle : (c : Ctx) (js : List Job) → All Idle js → OnOk (All Idle) (prepare c js)
unfolding prepare
prepare-Idle c [] w = tt
prepare-Idle c (j ∷ js) w = OnOk-bind (All Idle) (before_create c j) _ λ j' e.
    OnOk-bind (All Idle) (prepare c js) _ λ rest e'. (
      OnOk-at Idle (before_create c j) j' (before_create-Idle c j w.0) e,
      OnOk-at (All Idle) (prepare c js) rest (prepare-Idle c js w.1) e',
    )

build_child_row-Idle :
    (c : Ctx) (id : String) (fu : FollowUp) (parent_id spawned_by : String) (source : InsertSource)
    (d : Option KindDefaults)
    → OnOk Idle (build_child_row c id fu parent_id spawned_by source d)
unfolding build_child_row build_row
build_child_row-Idle c id fu parent_id spawned_by source d =
    OnOk-bind Idle (marshal_args fu.args) _ λ payload _.
      OnOk-bind Idle (child_stamp c fu parent_id spawned_by source (routed_opts d fu)) _
        λ st _. refl

-- A test that only running rows pass, and that a barrier's columns do not enter.
module _ (test : Job → Bool) (busy : (j : Job) → Idle j → test j ≡ false)
    (apart : (j : Job) → test (clear_barrier j) ≡ test j) where
  count-skip_conflicts :
      (table js : List Job) → All Idle js → count test (skip_conflicts table js) ≡ count test table
  unfolding skip_conflicts
  count-skip_conflicts table [] w = refl
  count-skip_conflicts table (j ∷ js) w = elim (Bool-cases (conflicts table j)) [
    | inl e ↦ rw e (count-skip_conflicts table js w.1)
    | inr e ↦
        rw e
          (count-skip_conflicts (table ++ j ∷ []) js w.1 ∙ count-append test table j (busy j w.0))
  ]

  count-chunk :
      (c : Ctx) (table : List Job) (j : Job)
      → Idle j
      → OnOk (λ r. count test r.0 ≡ count test table) (conflict_insert_chunk c table (j ∷ []))
  unfolding conflict_insert_chunk insert_skipping_conflicts
  count-chunk c table j w =
      OnOk-bind (λ r. count test r.0 ≡ count test table)
        (insert_skipping_conflicts c table (j ∷ [])) _
        λ t e.
          OnOk-at (λ x. count test x ≡ count test table)
            (insert_skipping_conflicts c table (j ∷ [])) t
            (OnOk-bind (λ x. count test x ≡ count test table) (prepare c (j ∷ [])) _
              λ prepared e'. count-skip_conflicts table prepared (
                OnOk-at (All Idle) (prepare c (j ∷ [])) prepared (prepare-Idle c (j ∷ []) (w, tt))
                  e'))
            e

  count-enqueue_continuation :
      (c : Ctx) (db : Db) (parent_id spawned_by kind : String) (spec : BarrierSpec)
      → OnOk
          (λ d. count test d.jobs ≡ count test db.jobs)
          (enqueue_continuation c db parent_id spawned_by kind spec)
  unfolding enqueue_continuation
  count-enqueue_continuation c db parent_id spawned_by kind spec =
      OnOk-bind (λ d. count test d.jobs ≡ count test db.jobs) row _
        λ j e.
          OnOk-bind (λ d. count test d.jobs ≡ count test db.jobs)
            (conflict_insert_chunk c db.jobs (j ∷ [])) _
            λ r e'.
              count-update_same test (by_id parent_id) clear_barrier apart r.0
              ∙ OnOk-at (λ x. count test x.0 ≡ count test db.jobs)
                  (conflict_insert_chunk c db.jobs (j ∷ [])) r
                  (count-chunk c db.jobs j (
                    OnOk-at Idle row j
                      (build_child_row-Idle c (c.lib.new_id db.minted)
                        (follow_up_of_spec kind spec parent_id) parent_id spawned_by
                        InsertSource.barrier (some (spec_defaults spec)))
                      e))
                  e'
    where
      row : Result Job
      row =
          build_child_row c (c.lib.new_id db.minted) (follow_up_of_spec kind spec parent_id)
            parent_id spawned_by InsertSource.barrier (some (spec_defaults spec))

  pub count-fire :
      (c : Ctx) (db : Db) (parent_id spawned_by : String)
      → OnOk
          (λ r. count test r.0.jobs ≡ count test db.jobs)
          (fire_barrier_if_complete c db parent_id spawned_by)
  unfolding fire_barrier_if_complete
  count-fire c db parent_id spawned_by = go (barrier_of (find (by_id parent_id) db.jobs))
    where
      go :
          (o : Option (String × BarrierSpec))
          → OnOk
              (λ r. count test r.0.jobs ≡ count test db.jobs)
              (fire_pending c db parent_id spawned_by o)
      go none = refl
      go (some (kind, spec)) = elim (Bool-cases (any (is_pending_child parent_id) db.jobs)) [
        | inl e ↦ rw e refl
        | inr e ↦ rw e (
            OnOk-bind (λ r. count test r.0.jobs ≡ count test db.jobs)
              (enqueue_continuation c db parent_id spawned_by kind spec) _
              λ d e'.
                OnOk-at (λ x. count test x.jobs ≡ count test db.jobs)
                  (enqueue_continuation c db parent_id spawned_by kind spec) d
                  (count-enqueue_continuation c db parent_id spawned_by kind spec) e')
      ]
