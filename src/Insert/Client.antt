-- ===== src/Insert/Client.antt =====
-- internal/core/client.go: one enqueue, with the holder of a colliding key. For a Client, the
-- context's registry and hook are the Client's own.
pub mod Safe
use go_flywheel.Base.{
  List, Option, String, [], false, find, if◌then◌else◌, is_some, none, opt_str_eq, some, str_eq,
  str_mem, suc, true, ◌&&◌, ◌++◌, ◌||◌, ◌∷◌,
}
use go_flywheel.Env.{Ctx}
use go_flywheel.Insert.Conflict.{before_create, conflicts, insert_skipping_conflicts, landed_rows}
use go_flywheel.Insert.Row.{InsertOpts, apply_to, build_row, default_queue, or_string}
use go_flywheel.Insert.Stamp.{Stamp, stamp_row}
use go_flywheel.Rows.{Db, Job, is_live}
use go_flywheel.Types.{Bytes, Error, InsertSource, Result, already_enqueued, err, ok, ◌>>=◌, ◌>>◌}

abbrev pub deref : Option String → String
deref none = ""
deref (some s) = s

pub stamp_for : Ctx → String → InsertOpts → InsertSource → String → Result Stamp
stamp_for c kind opts source slug =
    stamp_row c
      (record {
        kind = kind;
        queue = or_string opts.queue default_queue;
        source = source;
        spawned_by = "";
        parent_job_id = deref opts.parent;
        periodic_slug = slug;
      })
      opts.tags opts.metadata (or_string opts.request_id c.request_id)

-- How an insert ends when no statement fails.
pub data Inserted : Type 0 where
  landed : String → Inserted
  collided : Inserted

-- On a caller's transaction a keyed row skips the conflict and is read back by its id.
unfoldable pub write_on_tx : Ctx → Db → Job → Result (Db × Inserted)
write_on_tx c db row = do
  table ← insert_skipping_conflicts c db.jobs (row ∷ [])
  let outcome = if str_mem row.id (landed_rows table (row ∷ [])) then landed row.id else collided
  ok (record db { jobs = table }, outcome)

-- Otherwise the row is created, and a duplicate key is the collision.
unfoldable pub write_plain : Ctx → Db → Job → Result (Db × Inserted)
write_plain c db row = do
  row' ← before_create c row
  ok (
      if conflicts db.jobs row'
      then (db, collided)
      else (record db { jobs = db.jobs ++ row' ∷ [] }, landed row.id))

unfoldable pub insert :
    Ctx → Db → String → Bytes → InsertOpts → InsertSource → String → Result (Db × Inserted)
unfolding stamp_for write_on_tx write_plain apply_to conflicts
insert c db kind payload opts source slug = do
  let opts' = apply_to (c.defaults_for kind) opts
  st ← stamp_for c kind opts' source slug
  let row = build_row c (c.lib.new_id db.minted) kind payload opts' st
  let db' = record db { minted = suc db.minted }
  if opts'.on_tx && (is_some row.unique_key || is_some row.unique_active_key)
      then write_on_tx c db' row
      else write_plain c db' row

-- readKeyHolders over one key of each kind: the rows that hold them, soft-deleted ones included.
key_holder : List Job → String → Option Job
key_holder table k = find (λ j. opt_str_eq j.unique_key (some k)) table

active_key_holder : List Job → String → Option Job
active_key_holder table k = find (λ j. is_live j && opt_str_eq j.unique_active_key (some k)) table

abbrev id_or_empty : Option Job → String
id_or_empty none = ""
id_or_empty (some j) = j.id

-- keyHolders.holderOf
pub holder_of : List Job → String → String → String × String
unfolding key_holder active_key_holder
holder_of table unique_key active_key =
    let by_key = id_or_empty (key_holder table unique_key) in
    let by_active = id_or_empty (active_key_holder table active_key) in
    if (if str_eq unique_key "" then false else if str_eq by_key "" then false else true)
    then (by_key, unique_key)
    else if str_eq active_key ""
    then ("", unique_key)
    else (by_active, active_key)

-- alreadyEnqueued, whose read succeeds.
unfoldable pub already_enqueued_error : List Job → String → String → Error
unfolding holder_of
already_enqueued_error table unique_key active_key =
    let (id, key) = holder_of table unique_key active_key in already_enqueued id key

unfoldable pub enqueue : Ctx → Db → String → Bytes → InsertOpts → Result (Db × String)
enqueue c db kind payload opts = do
  (db', outcome) ← insert c db kind payload opts InsertSource.client ""
  elim outcome [
    | landed id ↦ ok (db', id)
    | collided ↦ err (already_enqueued_error db'.jobs opts.unique_key opts.unique_active_key)
  ]
