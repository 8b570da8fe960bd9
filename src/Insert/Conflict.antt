-- ===== src/Insert/Conflict.antt =====
-- The unique indexes of internal/core/indexes.go (jobs_unique_key, jobs_unique_active_key) and the
-- primary key, the row hook of base.go, and batch.go's insert that skips conflicting rows.
use go_flywheel.Base.{
  Bool, List, String, [], any, if◌then◌else◌, is_some, map, opt_str_eq, select, str_eq, str_mem,
  ◌&&◌, ◌++◌, ◌==◌, ◌||◌, ◌∷◌,
}
use go_flywheel.Env.{Ctx}
use go_flywheel.Insert.Row.{
  default_max_attempts, default_priority, default_queue, or_int, or_string,
}
use go_flywheel.Rows.{Job, in_scope, is_live}
use go_flywheel.Types.{Bytes, Result, Time, err, invalid, ok, ◌>>=◌}

-- Two rows that no table with the three indexes can hold together.
unfoldable pub clash : Job → Job → Bool
clash r j =
    str_eq r.id j.id
    || opt_str_eq r.unique_key j.unique_key
    || (is_live r && is_live j && opt_str_eq r.unique_active_key j.unique_active_key)

unfoldable pub conflicts : List Job → Job → Bool
conflicts table j = any (λ r. clash r j) table

abbrev or_time : Time → Time → Time
or_time t fallback = if t == 0 then fallback else t

-- `{}`
abbrev pub or_object : Bytes → Bytes
or_object [] = 123 ∷ 125 ∷ []
or_object (b ∷ bs) = b ∷ bs

-- (*jobRow).BeforeCreate. Ids come from models.NewID, which mints no empty one, and states are
-- valid ones.
unfoldable pub before_create : Ctx → Job → Result Job
before_create c j =
    if str_eq j.kind ""
    then err (invalid "kind" "is required")
    else ok (record j {
      created_at = or_time j.created_at c.now;
      updated_at = or_time j.updated_at c.now;
      queue = or_string j.queue default_queue;
      priority = or_int j.priority default_priority;
      max_attempts = or_int j.max_attempts default_max_attempts;
      args = or_object j.args;
      metadata = or_object j.metadata;
      scheduled_at = or_time j.scheduled_at c.now;
    })

unfoldable pub prepare : Ctx → List Job → Result (List Job)
prepare c [] = ok []
prepare c (j ∷ js) = do j' ← before_create c j; rest ← prepare c js; ok (j' ∷ rest)

-- ON CONFLICT DO NOTHING, one row at a time.
unfoldable pub skip_conflicts : List Job → List Job → List Job
skip_conflicts table [] = table
skip_conflicts table (j ∷ js) =
    skip_conflicts (if conflicts table j then table else table ++ j ∷ []) js

unfoldable pub insert_skipping_conflicts : Ctx → List Job → List Job → Result (List Job)
unfolding prepare skip_conflicts conflicts
insert_skipping_conflicts c table rows = do
  prepared ← prepare c rows
  ok (skip_conflicts table prepared)

pub chunk_has_unique_key : List Job → Bool
chunk_has_unique_key = any (λ j. is_some j.unique_key || is_some j.unique_active_key)

abbrev pub ids_of : List Job → List String
ids_of = map (λ j. j.id)

unfoldable pub landed_rows : List Job → List Job → List String
unfolding chunk_has_unique_key
landed_rows table rows =
    if chunk_has_unique_key rows
    then ids_of (select (λ j. in_scope j && str_mem j.id (ids_of rows)) table)
    else ids_of rows

-- The table after the chunk, and the ids that landed.
unfoldable pub conflict_insert_chunk : Ctx → List Job → List Job → Result (List Job × List String)
conflict_insert_chunk c table [] = ok (table, [])
conflict_insert_chunk c table (j ∷ js) = do
  table' ← insert_skipping_conflicts c table (j ∷ js)
  ok (table', landed_rows table' (j ∷ js))
