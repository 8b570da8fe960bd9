-- ===== src/Driver/Barrier/Continuation.antt =====
-- About fireBarrierIfComplete of internal/core/driver.go: the continuation.
use Prim.Native.String.{◌++◌ as str_append}
use mathlib.Core.List.{◌++◌}
use go_flywheel.Base.{
  All, Bool, Bool-cases, List, String, [], ap, inl, inr, length, refl, some, subst, suc, sym,
  update_where, ◌∙◌, ◌∷◌, ◌≡◌, ◌⊎◌,
}
use go_flywheel.Driver.Barrier.{
  by_id, clear_barrier, enqueue_continuation, follow_up_of_spec, spec_defaults,
}
use go_flywheel.Env.{Ctx}
use go_flywheel.Insert.Blocks.{
  Blocks, Exists, Key, Named, OneIn, Prepared, conflicts-All, conflicts-Exists, insert_one-OneIn,
  non_empty-Key,
}
use go_flywheel.Insert.Conflict.{conflict_insert_chunk}
use go_flywheel.Insert.Row.{build_child_row, build_row}
use go_flywheel.Insert.Stamp.{stamp_row}
use go_flywheel.Rows.{BarrierSpec, Db, Job}
use go_flywheel.Types.{Bytes, InsertSource, OnOk, OnOk-at, OnOk-bind}

-- `"barrier:" + parentID`
abbrev pub barrier_key : String → String
barrier_key parent_id = str_append "barrier:" parent_id

-- A job that runs a barrier's continuation: it is available, under this id and the barrier's key, of
-- the barrier's kind, with its args where they are not empty, and a child of the parent.
abbrev pub Continuation : String → String → String → Bytes → Job → Type 0
Continuation id parent_id kind args j =
    Named id (barrier_key parent_id) "" j
    × (j.kind ≡ kind)
    × (j.parent_job_id ≡ some parent_id)
    × ((args ≡ []) ⊎ (j.args ≡ args))

-- The table has one row more, the continuation, which no row blocked; or a row blocks it, and the
-- table has as many rows as before.
abbrev pub Continued : String → String → String → Bytes → List Job → List Job → Type 0
Continued id parent_id kind args old new =
    All (λ x. ¬ Blocks id (barrier_key parent_id) "" x) old
      × Exists (Continuation id parent_id kind args) new
      × (length new ≡ suc (length old))
    ⊎ Exists (Blocks id (barrier_key parent_id) "") old × (length new ≡ length old)

built-Continuation :
    (c : Ctx) (id parent_id spawned_by kind : String) (spec : BarrierSpec)
    → OnOk
        (λ j. Continuation id parent_id kind spec.args j)
        (build_child_row c id
          (follow_up_of_spec kind spec parent_id)
          parent_id
          spawned_by
          InsertSource.barrier
          (some (spec_defaults spec)))
unfolding build_child_row build_row follow_up_of_spec spec_defaults
built-Continuation c id parent_id spawned_by kind spec =
    OnOk-bind (λ j. Continuation id parent_id kind spec.args j)
      (stamp_row c _ spec.tags [] c.request_id) _
      λ st _. (
        (refl, non_empty-Key (barrier_key parent_id), inl (refl, refl), refl),
        refl,
        refl,
        inr refl,
      )

module _ {ℓ} {A : Type ℓ} where
  last-Exists : (P : A → Type 0) (xs : List A) (x : A) → P x → Exists P (xs ++ x ∷ [])
  last-Exists P [] x h = inl h
  last-Exists P (y ∷ ys) x h = inr (last-Exists P ys x h)

  update_where-Exists :
      (P : A → Type 0) (p : A → Bool) (f : A → A)
      → ((x : A) → P x → P (f x))
      → (xs : List A) → Exists P xs
      → Exists P (update_where p f xs)
  update_where-Exists P p f kept [] h = h
  update_where-Exists P p f kept (x ∷ xs) (inl h) =
      inl (elim (Bool-cases (p x)) [ inl e ↦ rw e (kept x h) | inr e ↦ rw e h ])
  update_where-Exists P p f kept (x ∷ xs) (inr h) = inr (update_where-Exists P p f kept xs h)

  length-update_where :
      (p : A → Bool) (f : A → A) (xs : List A) → length (update_where p f xs) ≡ length xs
  length-update_where p f [] = refl
  length-update_where p f (x ∷ xs) = ap (λ n. suc n) (length-update_where p f xs)

  length-snoc : (xs : List A) (x : A) → length (xs ++ x ∷ []) ≡ suc (length xs)
  length-snoc [] x = refl
  length-snoc (y ∷ ys) x = ap (λ n. suc n) (length-snoc ys x)

-- The same, of the row that the insert prepared and of one whose barrier is cleared.
Prepared-Continuation :
    (id parent_id kind : String) (args : Bytes) (row j : Job)
    → Continuation id parent_id kind args row
    → Prepared row j
    → Continuation id parent_id kind args j
Prepared-Continuation id parent_id kind args row j (n, k, p, a) (same_id, k', u, v, st, p', a') = (
  (
    same_id ∙ n.0,
    subst (Key (barrier_key parent_id)) (sym u) n.1,
    subst (Key "") (sym v) n.2,
    st ∙ n.3,
  ),
  k' ∙ k,
  p' ∙ p,
  kept a a',
)
  where
    kept :
        (args ≡ []) ⊎ (row.args ≡ args)
        → (row.args ≡ []) ⊎ (j.args ≡ row.args)
        → (args ≡ []) ⊎ (j.args ≡ args)
    kept (inl e) h = inl e
    kept (inr e) (inl h) = inl (sym e ∙ h)
    kept (inr e) (inr h) = inr (h ∙ e)

cleared-Continuation :
    (id parent_id kind : String) (args : Bytes) (j : Job)
    → Continuation id parent_id kind args j
    → Continuation id parent_id kind args (clear_barrier j)
unfolding clear_barrier
cleared-Continuation id parent_id kind args j h = h

-- A table into which one row went past conflicts, with the parent's barrier cleared after it.
OneIn-Continued :
    (c : Ctx) (id parent_id kind : String) (args : Bytes) (table table' : List Job) (row : Job)
    → Continuation id parent_id kind args row
    → OneIn c table row table'
    → Continued id parent_id kind args table (update_where (by_id parent_id) clear_barrier table')
OneIn-Continued c id parent_id kind args table table' row h (j, kept, outcome) =
    let made = Prepared-Continuation id parent_id kind args row j h kept in
    let longer = length-update_where (by_id parent_id) clear_barrier table' in
    elim outcome [
      | inl (t, same) ↦ inr (
        conflicts-Exists id (barrier_key parent_id) "" table j made.0 t,
        longer ∙ ap (λ x. length x) same,
      )
      | inr (t, same) ↦ inl (
        conflicts-All id (barrier_key parent_id) "" table j made.0 t,
        update_where-Exists (Continuation id parent_id kind args) (by_id parent_id) clear_barrier
            (cleared-Continuation id parent_id kind args) table'
            (subst (Exists (Continuation id parent_id kind args)) (sym same)
              (last-Exists (Continuation id parent_id kind args) table j made)),
        longer ∙ ap (λ x. length x) same ∙ length-snoc table j,
      )
    ]

pub enqueued-Continued :
    (c : Ctx) (db : Db) (parent_id spawned_by kind : String) (spec : BarrierSpec)
    → OnOk
        (λ d.
          (d.minted ≡ suc db.minted)
          × Continued (c.lib.new_id db.minted) parent_id kind spec.args db.jobs d.jobs)
        (enqueue_continuation c db parent_id spawned_by kind spec)
unfolding enqueue_continuation
enqueued-Continued c db parent_id spawned_by kind spec =
    let id = c.lib.new_id db.minted in
    let end : Db → Type 0 =
      λ d. (d.minted ≡ suc db.minted) × Continued id parent_id kind spec.args db.jobs d.jobs in
    let child =
      build_child_row c id (follow_up_of_spec kind spec parent_id) parent_id spawned_by
        InsertSource.barrier (some (spec_defaults spec)) in
    OnOk-bind end child _ λ row e.
      let built =
        OnOk-at (Continuation id parent_id kind spec.args) child row
          (built-Continuation c id parent_id spawned_by kind spec) e in
      OnOk-bind end (conflict_insert_chunk c db.jobs (row ∷ [])) _ λ r e'. (
        refl,
        OneIn-Continued c id parent_id kind spec.args db.jobs r.0 row built (
            OnOk-at (λ x. OneIn c db.jobs row x.0) (conflict_insert_chunk c db.jobs (row ∷ [])) r
              (insert_one-OneIn c db.jobs row) e'),
      )
