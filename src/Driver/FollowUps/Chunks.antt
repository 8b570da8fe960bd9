-- ===== src/Driver/FollowUps/Chunks.antt =====
-- About insertFollowUps of internal/core/driver.go: its chunks, and the table it leaves.
use go_flywheel.Base.{
  All, List, Option, String, [], ap, arith, drop, leb, length, refl, suc, take, zero, ℕ, ◌++◌, ◌+◌,
  ◌-◌, ◌<◌, ◌∷◌, ◌≡◌, ◌≤◌,
}
use go_flywheel.Driver.FollowUps.{build_children, chunks, insert_chunks, insert_follow_ups}
use go_flywheel.Driver.Opts.{
  DriverOpts, follow_up_chunk_size, follow_up_chunk_size_pos, follow_up_limit,
}
use go_flywheel.Env.{Ctx, KindDefaults}
use go_flywheel.Insert.Conflict.{conflict_insert_chunk}
use go_flywheel.Insert.Row.{build_child_row, child_opts, child_stamp, marshal_args, routed_opts}
use go_flywheel.Rows.{Db, Job}
use go_flywheel.Store.Wf.{RowOk, TableOk, build_row-RowOk, conflict_insert_chunk-TableOk}
use go_flywheel.Types.{InsertSource, OnOk, OnOk-at, OnOk-bind, guard, ok, too_many_follow_ups}
use go_flywheel.Work.{FollowUp}

pub flatten : List (List Job) → List Job
flatten [] = []
flatten (xs ∷ xss) = xs ++ flatten xss

take-append-drop : (n : ℕ) (js : List Job) → take n js ++ drop n js ≡ js
take-append-drop zero js = refl
take-append-drop (suc n) [] = refl
take-append-drop (suc n) (j ∷ js) = rw (take-append-drop n js)

length-drop : (n : ℕ) (js : List Job) → length (drop n js) ≡ length js - n
length-drop zero js = omega arith
length-drop (suc n) [] = omega arith
length-drop (suc n) (j ∷ js) = omega (arith, length-drop n js)

length-take-le : (n : ℕ) (js : List Job) → length (take n js) ≤ n
length-take-le zero js = omega arith
length-take-le (suc n) [] = omega arith
length-take-le (suc n) (j ∷ js) = omega (arith, length-take-le n js)

chunks-flatten :
    (f size : ℕ) (js : List Job) → 0 < size → length js ≤ f → flatten (chunks f size js) ≡ js
unfolding chunks flatten
chunks-flatten zero size [] h k = refl
chunks-flatten zero size (j ∷ js) h k = absurd (omega arith)
chunks-flatten (suc f) size [] h k = refl
chunks-flatten (suc f) zero (j ∷ js) h k = absurd (omega arith)
chunks-flatten (suc f) (suc n) (j ∷ js) h k =
    rw (chunks-flatten f (suc n) (drop n js) h (omega (arith, length-drop n js)))
      (ap (◌∷◌ j) (take-append-drop n js))

chunks-bounded : (f size : ℕ) (js : List Job) → All (λ xs. length xs ≤ size) (chunks f size js)
unfolding chunks
chunks-bounded zero size js = tt
chunks-bounded (suc f) size [] = tt
chunks-bounded (suc f) size (j ∷ js) =
    (length-take-le size (j ∷ js), chunks-bounded f size (drop size (j ∷ js)))

-- With one unit of fuel for each row, which insertFollowUps gives it, and the chunk size that the
-- options resolve to, the chunks cover every row once, in order, and each fits the size.
pub chunks_cover :
    (o : DriverOpts) (js : List Job)
    → (flatten (chunks (length js) (follow_up_chunk_size o) js) ≡ js)
      × All
          (λ xs. length xs ≤ follow_up_chunk_size o)
          (chunks (length js) (follow_up_chunk_size o) js)
chunks_cover o js = (
  chunks-flatten (length js) (follow_up_chunk_size o) js (follow_up_chunk_size_pos o) (omega arith),
  chunks-bounded (length js) (follow_up_chunk_size o) js,
)

pub build_child_row-RowOk :
    (c : Ctx) (id : String) (fu : FollowUp) (parent_id spawned_by : String) (source : InsertSource)
    (d : Option KindDefaults)
    → OnOk RowOk (build_child_row c id fu parent_id spawned_by source d)
unfolding build_child_row
build_child_row-RowOk c id fu parent_id spawned_by source d =
    OnOk-bind RowOk (marshal_args fu.args) _ λ payload _.
      OnOk-bind RowOk (child_stamp c fu parent_id spawned_by source (routed_opts d fu)) _
        λ st _. build_row-RowOk c id fu.kind payload (child_opts fu parent_id (routed_opts d fu)) st

build_children-RowOk :
    (c : Ctx) (n : ℕ) (fus : List FollowUp) (parent_id : String)
    → OnOk (All RowOk) (build_children c n fus parent_id)
unfolding build_children
build_children-RowOk c n [] parent_id = tt
build_children-RowOk c n (fu ∷ fus) parent_id =
    OnOk-bind (All RowOk)
      (build_child_row c (c.lib.new_id n) fu parent_id parent_id InsertSource.follow_up
        (c.defaults_for fu.kind))
      _
      λ row e. OnOk-bind (All RowOk) (build_children c (suc n) fus parent_id) _ λ rest e'. (
        OnOk-at RowOk
            (build_child_row c (c.lib.new_id n) fu parent_id parent_id InsertSource.follow_up
              (c.defaults_for fu.kind))
            row
            (build_child_row-RowOk c (c.lib.new_id n) fu parent_id parent_id InsertSource.follow_up
              (c.defaults_for fu.kind))
            e,
        OnOk-at (All RowOk) (build_children c (suc n) fus parent_id) rest
            (build_children-RowOk c (suc n) fus parent_id) e',
      )

All-take : (n : ℕ) (js : List Job) → All RowOk js → All RowOk (take n js)
All-take zero js a = tt
All-take (suc n) [] a = tt
All-take (suc n) (j ∷ js) a = (a.0, All-take n js a.1)

All-drop : (n : ℕ) (js : List Job) → All RowOk js → All RowOk (drop n js)
All-drop zero js a = a
All-drop (suc n) [] a = tt
All-drop (suc n) (j ∷ js) a = All-drop n js a.1

chunks-RowOk : (f size : ℕ) (js : List Job) → All RowOk js → All (All RowOk) (chunks f size js)
unfolding chunks
chunks-RowOk zero size js a = tt
chunks-RowOk (suc f) size [] a = tt
chunks-RowOk (suc f) size (j ∷ js) a =
    (All-take size (j ∷ js) a, chunks-RowOk f size (drop size (j ∷ js)) (All-drop size (j ∷ js) a))

insert_chunks-TableOk :
    (c : Ctx) (table : List Job) (n : ℕ) (cs : List (List Job))
    → TableOk table
    → All (All RowOk) cs
    → OnOk (λ r. TableOk r.0) (insert_chunks c table n cs)
unfolding insert_chunks
insert_chunks-TableOk c table n [] w a = w
insert_chunks-TableOk c table n (chunk ∷ rest) w a =
    OnOk-bind (λ r. TableOk r.0) (conflict_insert_chunk c table chunk) _
      λ r e.
        insert_chunks-TableOk c r.0 (n + length r.1) rest
          (OnOk-at (λ x. TableOk x.0) (conflict_insert_chunk c table chunk) r
            (conflict_insert_chunk-TableOk c table chunk w a.0) e)
          a.1

pub insert_follow_ups-TableOk :
    (c : Ctx) (o : DriverOpts) (db : Db) (fus : List FollowUp) (parent_id : String)
    → TableOk db.jobs
    → OnOk (λ r. TableOk r.0.jobs) (insert_follow_ups c o db fus parent_id)
unfolding insert_follow_ups
insert_follow_ups-TableOk c o db fus parent_id w =
    OnOk-bind (λ r. TableOk r.0.jobs)
      (guard (leb (length fus) (follow_up_limit o)) too_many_follow_ups) _
      λ u _.
        OnOk-bind (λ r. TableOk r.0.jobs) (build_children c db.minted fus parent_id) _
          λ rows e.
            let cs = chunks (length rows) (follow_up_chunk_size o) rows in
            OnOk-bind (λ r. TableOk r.0.jobs) (insert_chunks c db.jobs 0 cs) _
              λ r e'.
                OnOk-at (λ x. TableOk x.0) (insert_chunks c db.jobs 0 cs) r
                  (insert_chunks-TableOk c db.jobs 0 cs w (
                    chunks-RowOk (length rows) (follow_up_chunk_size o) rows (
                      OnOk-at (All RowOk) (build_children c db.minted fus parent_id) rows
                        (build_children-RowOk c db.minted fus parent_id) e)))
                  e'

-- An insert of follow-ups that succeeds on a well-formed table leaves it well formed.
pub follow_ups_keep_table :
    (c : Ctx) (o : DriverOpts) (db : Db) (fus : List FollowUp) (parent_id : String) (r : Db × ℕ)
    → TableOk db.jobs
    → insert_follow_ups c o db fus parent_id ≡ ok r
    → TableOk r.0.jobs
follow_ups_keep_table c o db fus parent_id r w =
    OnOk-at (λ x. TableOk x.0.jobs) (insert_follow_ups c o db fus parent_id) r
      (insert_follow_ups-TableOk c o db fus parent_id w)
