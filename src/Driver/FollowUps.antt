-- ===== src/Driver/FollowUps.antt =====
-- insertFollowUps of internal/core/driver.go: the children of one attempt, in bounded chunks.
pub mod Chunks
use go_flywheel.Base.{List, String, [], drop, leb, length, suc, take, zero, ℕ, ◌+◌, ◌∷◌}
use go_flywheel.Driver.Opts.{DriverOpts, follow_up_chunk_size, follow_up_limit}
use go_flywheel.Env.{Ctx}
use go_flywheel.Insert.Conflict.{conflict_insert_chunk}
use go_flywheel.Insert.Row.{build_child_row}
use go_flywheel.Rows.{Db, Job}
use go_flywheel.Types.{InsertSource, Result, guard, ok, too_many_follow_ups, ◌>>=◌, ◌>>◌}
use go_flywheel.Work.{FollowUp}

-- The slices `rows[start:min(start+size, len(rows))]` of the loop, on fuel.
pub chunks : ℕ → ℕ → List Job → List (List Job)
chunks zero size rows = []
chunks (suc f) size [] = []
chunks (suc f) size (j ∷ js) = take size (j ∷ js) ∷ chunks f size (drop size (j ∷ js))

-- The rows of the follow-ups, each with the next id and the defaults of its kind.
pub build_children : Ctx → ℕ → List FollowUp → String → Result (List Job)
build_children c n [] parent_id = ok []
build_children c n (fu ∷ fus) parent_id = do
  row ←
      build_child_row c (c.lib.new_id n) fu parent_id parent_id InsertSource.follow_up
        (c.defaults_for fu.kind)
  rest ← build_children c (suc n) fus parent_id
  ok (row ∷ rest)

-- The table after every chunk, and how many rows landed.
unfoldable pub insert_chunks : Ctx → List Job → ℕ → List (List Job) → Result (List Job × ℕ)
insert_chunks c table enqueued [] = ok (table, enqueued)
insert_chunks c table enqueued (chunk ∷ rest) = do
  (table', ids) ← conflict_insert_chunk c table chunk
  insert_chunks c table' (enqueued + length ids) rest

unfoldable pub insert_follow_ups : Ctx → DriverOpts → Db → List FollowUp → String → Result (Db × ℕ)
unfolding build_children insert_chunks chunks
insert_follow_ups c o db follow_ups parent_id = do
  guard (leb (length follow_ups) (follow_up_limit o)) too_many_follow_ups
  rows ← build_children c db.minted follow_ups parent_id
  (table, enqueued) ← insert_chunks c db.jobs 0 (chunks (length rows) (follow_up_chunk_size o) rows)
  ok (record db { jobs = table; minted = db.minted + length follow_ups }, enqueued)
