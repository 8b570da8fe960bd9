-- ===== src/Store/Wf.antt =====
-- The well-formedness of the jobs table: each row's columns agree with its state, and the unique
-- indexes hold.
use go_flywheel.Base.{
  All, Bool, Bool-cases, List, String, [], if◌then◌else◌, inl, inr, is_some, refl, str_eq, true,
  update_where, ◌++◌, ◌∷◌, ◌≡◌,
}
use go_flywheel.Env.{Ctx}
use go_flywheel.Insert.Conflict.{
  before_create, conflict_insert_chunk, conflicts, insert_skipping_conflicts, prepare,
  skip_conflicts,
}
use go_flywheel.Insert.Row.{InsertOpts, build_row}
use go_flywheel.Insert.Stamp.{Stamp}
use go_flywheel.Rows.{Job}
use go_flywheel.Store.Unique.{Tame, Unique, skip_conflicts-Unique, update_where-Unique}
use go_flywheel.Store.Update.{All-append, All-update_where}
use go_flywheel.Types.{Bytes, JobState, OnOk, OnOk-at, OnOk-bind, is_terminal, state_eq}

-- A row is running exactly when it is leased, under a token and until an instant, and it has a
-- finalization time exactly when its state is terminal.
pub record RowOk (j : Job) : Type 0 where
  pub leased : state_eq j.state JobState.running ≡ is_some j.lease_token
  pub lease_ends : is_some j.lease_token ≡ is_some j.leased_until
  pub finalized : is_terminal j.state ≡ is_some j.finalized_at
  pub barrier_whole : is_some j.barrier_kind ≡ is_some j.barrier_spec

pub record TableOk (js : List Job) : Type 0 where
  pub rows : All RowOk js
  pub unique : Unique js

-- An update that keeps each row it selects well formed, leaves ids and keys alone and revives no
-- finished row.
pub update_where-TableOk :
    (p : Job → Bool) (f : Job → Job)
    → ((j : Job) → p j ≡ true → RowOk j → RowOk (f j))
    → ((j : Job) → p j ≡ true → Tame j (f j))
    → (js : List Job) → TableOk js
    → TableOk (update_where p f js)
update_where-TableOk p f keeps tame js w = record {
  rows = All-update_where RowOk p f keeps js w.rows;
  unique = update_where-Unique p f tame js w.unique;
}

pub build_row-RowOk :
    (c : Ctx) (id kind : String) (payload : Bytes) (opts : InsertOpts) (st : Stamp)
    → RowOk (build_row c id kind payload opts st)
unfolding build_row
build_row-RowOk c id kind payload opts st = record {
  leased = refl;
  lease_ends = refl;
  finalized = refl;
  barrier_whole = refl;
}

pub before_create-RowOk : (c : Ctx) (j : Job) → RowOk j → OnOk RowOk (before_create c j)
unfolding before_create
before_create-RowOk c j w = elim (Bool-cases (str_eq j.kind "")) [
  | inl e ↦ rw e tt
  | inr e ↦ rw e (record {
    leased = w.leased;
    lease_ends = w.lease_ends;
    finalized = w.finalized;
    barrier_whole = w.barrier_whole;
  })
]

prepare-RowOk : (c : Ctx) (js : List Job) → All RowOk js → OnOk (All RowOk) (prepare c js)
unfolding prepare
prepare-RowOk c [] w = tt
prepare-RowOk c (j ∷ js) w = OnOk-bind (All RowOk) (before_create c j) _ λ j' e.
    OnOk-bind (All RowOk) (prepare c js) _ λ rest e'. (
      OnOk-at RowOk (before_create c j) j' (before_create-RowOk c j w.0) e,
      OnOk-at (All RowOk) (prepare c js) rest (prepare-RowOk c js w.1) e',
    )

skip_conflicts-RowOk :
    (table js : List Job) → All RowOk table → All RowOk js → All RowOk (skip_conflicts table js)
unfolding skip_conflicts
skip_conflicts-RowOk table [] w v = w
skip_conflicts-RowOk table (j ∷ js) w v =
    skip_conflicts-RowOk (if conflicts table j then table else table ++ j ∷ []) js
      (elim (Bool-cases (conflicts table j)) [
        | inl e ↦ rw e w
        | inr e ↦ rw e (All-append RowOk table (j ∷ []) w (v.0, tt))
      ])
      v.1

pub insert_skipping_conflicts-TableOk :
    (c : Ctx) (table js : List Job)
    → TableOk table
    → All RowOk js
    → OnOk TableOk (insert_skipping_conflicts c table js)
unfolding insert_skipping_conflicts
insert_skipping_conflicts-TableOk c table js w v = OnOk-bind TableOk (prepare c js) _ λ prepared e.
    record {
      rows =
          skip_conflicts-RowOk table prepared w.rows
            (OnOk-at (All RowOk) (prepare c js) prepared (prepare-RowOk c js v) e);
      unique = skip_conflicts-Unique table prepared w.unique;
    }

-- A chunk that inserts its rows past conflicts keeps the table well formed.
pub conflict_insert_chunk-TableOk :
    (c : Ctx) (table js : List Job)
    → TableOk table
    → All RowOk js
    → OnOk (λ r. TableOk r.0) (conflict_insert_chunk c table js)
unfolding conflict_insert_chunk
conflict_insert_chunk-TableOk c table [] w v = w
conflict_insert_chunk-TableOk c table (j ∷ js) w v =
    OnOk-bind (λ r. TableOk r.0) (insert_skipping_conflicts c table (j ∷ js)) _
      λ t e.
        OnOk-at TableOk (insert_skipping_conflicts c table (j ∷ js)) t
          (insert_skipping_conflicts-TableOk c table (j ∷ js) w v) e
