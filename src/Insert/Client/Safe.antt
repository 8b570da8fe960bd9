-- ===== src/Insert/Client/Safe.antt =====
-- About insert of internal/core/client.go: the table it leaves and the outcome it reports.
use go_flywheel.Base.{
  All, Bool-cases, List, Option, String, [], false, inl, inr, is_some, none, refl, some, subst, suc,
  sym, ◌&&◌, ◌++◌, ◌||◌, ◌∙◌, ◌∷◌, ◌≡◌, ◌⊎◌,
}
use go_flywheel.Env.{Ctx, KindDefaults}
use go_flywheel.Insert.Blocks.{
  Blocks, Exists, Key, Named, Prepared, before_create-Prepared, conflicts-All, conflicts-Exists,
  non_empty-Key,
}
use go_flywheel.Insert.Client.{
  Inserted, collided, insert, landed, stamp_for, write_on_tx, write_plain,
}
use go_flywheel.Insert.Conflict.{before_create, conflicts, insert_skipping_conflicts}
use go_flywheel.Insert.Row.{InsertOpts, apply_to, build_row, non_empty}
use go_flywheel.Rows.{Db, Job}
use go_flywheel.Store.Unique.{append-Unique}
use go_flywheel.Store.Update.{All-append}
use go_flywheel.Store.Wf.{
  RowOk, TableOk, before_create-RowOk, build_row-RowOk, insert_skipping_conflicts-TableOk,
}
use go_flywheel.Types.{Bytes, InsertSource, OnOk, OnOk-at, OnOk-bind, ok}

append-TableOk :
    (table : List Job) (j : Job)
    → TableOk table
    → RowOk j
    → conflicts table j ≡ false
    → TableOk (table ++ j ∷ [])
append-TableOk table j w v e = record {
  rows = All-append RowOk table (j ∷ []) w.rows (v, tt);
  unique = append-Unique table j w.unique e;
}

write_plain-TableOk :
    (c : Ctx) (db : Db) (row : Job)
    → TableOk db.jobs
    → RowOk row
    → OnOk (λ r. TableOk r.0.jobs) (write_plain c db row)
unfolding write_plain
write_plain-TableOk c db row w v =
    OnOk-bind (λ r. TableOk r.0.jobs) (before_create c row) _
      λ row' e. elim (Bool-cases (conflicts db.jobs row')) [
        | inl k ↦ rw k w
        | inr k ↦ rw k (
            append-TableOk db.jobs row' w
              (OnOk-at RowOk (before_create c row) row' (before_create-RowOk c row v) e) k)
      ]

write_on_tx-TableOk :
    (c : Ctx) (db : Db) (row : Job)
    → TableOk db.jobs
    → RowOk row
    → OnOk (λ r. TableOk r.0.jobs) (write_on_tx c db row)
unfolding write_on_tx
write_on_tx-TableOk c db row w v =
    OnOk-bind (λ r. TableOk r.0.jobs) (insert_skipping_conflicts c db.jobs (row ∷ [])) _
      λ t e.
        OnOk-at TableOk (insert_skipping_conflicts c db.jobs (row ∷ [])) t
          (insert_skipping_conflicts-TableOk c db.jobs (row ∷ []) w (v, tt)) e

insert-TableOk :
    (c : Ctx) (db : Db) (kind : String) (payload : Bytes) (opts : InsertOpts)
    (source : InsertSource) (slug : String)
    → TableOk db.jobs
    → OnOk (λ r. TableOk r.0.jobs) (insert c db kind payload opts source slug)
unfolding insert
insert-TableOk c db kind payload opts source slug w =
    let opts' = apply_to (c.defaults_for kind) opts in
    OnOk-bind (λ r. TableOk r.0.jobs) (stamp_for c kind opts' source slug) _
      λ st _.
        let row = build_row c (c.lib.new_id db.minted) kind payload opts' st in
        let v = build_row-RowOk c (c.lib.new_id db.minted) kind payload opts' st in
        let db' : Db = record db { minted = suc db.minted } in
        elim (Bool-cases
          (opts'.on_tx && (is_some row.unique_key || is_some row.unique_active_key))) [
            | inl k ↦ rw k (write_on_tx-TableOk c db' row w v)
            | inr k ↦ rw k (write_plain-TableOk c db' row w v)
          ]

-- An insert that succeeds on a well-formed table, whether its row landed or collided and whether or
-- not it runs on a caller's transaction, leaves the jobs table well formed.
pub insert_keeps_table :
    (c : Ctx) (db : Db) (kind : String) (payload : Bytes) (opts : InsertOpts)
    (source : InsertSource) (slug : String) (r : Db × Inserted)
    → TableOk db.jobs
    → insert c db kind payload opts source slug ≡ ok r
    → TableOk r.0.jobs
insert_keeps_table c db kind payload opts source slug r w =
    OnOk-at (λ x. TableOk x.0.jobs) (insert c db kind payload opts source slug) r
      (insert-TableOk c db kind payload opts source slug w)

apply_to-on_tx :
    (d : Option KindDefaults) (opts : InsertOpts) → (apply_to d opts).on_tx ≡ opts.on_tx
unfolding apply_to
apply_to-on_tx none opts = refl
apply_to-on_tx (some d) opts = refl

apply_to-keys :
    (d : Option KindDefaults) (opts : InsertOpts)
    → ((apply_to d opts).unique_key ≡ opts.unique_key)
      × ((apply_to d opts).unique_active_key ≡ opts.unique_active_key)
unfolding apply_to
apply_to-keys none opts = (refl, refl)
apply_to-keys (some d) opts = (refl, refl)

-- How a plain insert of a kind, a payload and two keys ends: a row with them is appended that no row
-- of the table blocks, or some row of the table blocks it and none is appended.
abbrev pub InsertEnd : Db → String → String → Bytes → String → String → Db × Inserted → Type 0
InsertEnd db id kind payload key active r =
    ((row : Job) × Named id key active row
      × (row.kind ≡ kind)
      × ((payload ≡ []) ⊎ (row.args ≡ payload))
      × All (λ x. ¬ Blocks id key active x) db.jobs
      × (r.0.jobs ≡ db.jobs ++ row ∷ [])
      × (r.1 ≡ landed id))
    ⊎ Exists (Blocks id key active) db.jobs × (r.0.jobs ≡ db.jobs) × (r.1 ≡ collided)

write_plain-InsertEnd :
    (c : Ctx) (db : Db) (row : Job) (key active : String)
    → Named row.id key active row
    → OnOk (InsertEnd db row.id row.kind row.args key active) (write_plain c db row)
unfolding write_plain
write_plain-InsertEnd c db row key active n =
    OnOk-bind (InsertEnd db row.id row.kind row.args key active) (before_create c row) _ λ row' e.
      let (same_id, kind, k, a, state, parent, args) =
        OnOk-at (Prepared row) (before_create c row) row' (before_create-Prepared c row) e in
      let named : Named row.id key active row' =
        (same_id, subst (Key key) (sym k) n.1, subst (Key active) (sym a) n.2, state ∙ n.3) in
      elim (Bool-cases (conflicts db.jobs row')) [
        | inl t ↦ rw t (inr (conflicts-Exists row.id key active db.jobs row' named t, refl, refl))
        | inr t ↦ rw t (
            inl (
              row',
              named,
              kind,
              args,
              conflicts-All row.id key active db.jobs row' named t,
              refl,
              refl,
            ))
      ]

-- An insert that succeeds, and that does not run on a caller's transaction, lands or collides. It
-- lands, under the id it minted, as an available row of its kind with its keys, and its payload where
-- that is not empty, behind the rows of the table, of which none has its id, its key, or, not
-- finished, its active key. It collides, and leaves the rows as they were, where one of them has.
pub insert-InsertEnd :
    (c : Ctx) (db : Db) (kind : String) (payload : Bytes) (opts : InsertOpts)
    (source : InsertSource) (slug : String) (r : Db × Inserted)
    → opts.on_tx ≡ false
    → insert c db kind payload opts source slug ≡ ok r
    → InsertEnd db (c.lib.new_id db.minted) kind payload opts.unique_key opts.unique_active_key r
unfolding insert build_row
insert-InsertEnd c db kind payload opts source slug r plain =
    let id = c.lib.new_id db.minted in
    let end : Db × Inserted → Type 0 =
      InsertEnd db id kind payload opts.unique_key opts.unique_active_key in
    OnOk-at end (insert c db kind payload opts source slug) r (
      OnOk-bind end (stamp_for c kind (apply_to (c.defaults_for kind) opts) source slug) _ λ st _.
        let opts' = apply_to (c.defaults_for kind) opts in
        let (k, a) = apply_to-keys (c.defaults_for kind) opts in
        let row = build_row c id kind payload opts' st in
        let named : Named id opts.unique_key opts.unique_active_key row = (
          refl,
          subst (λ s. Key opts.unique_key (non_empty s)) (sym k) (non_empty-Key opts.unique_key),
          subst (λ s. Key opts.unique_active_key (non_empty s)) (sym a)
              (non_empty-Key opts.unique_active_key),
          refl,
        ) in
        rw (apply_to-on_tx (c.defaults_for kind) opts ∙ plain) (
          write_plain-InsertEnd c (record db { minted = suc db.minted }) row opts.unique_key
            opts.unique_active_key named))
