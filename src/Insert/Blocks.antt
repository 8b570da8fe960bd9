-- ===== src/Insert/Blocks.antt =====
-- About the indexes of internal/core/indexes.go and the insert of batch.go that skips conflicts: which
-- rows of a table keep a row out, told by its id and its keys, and what becomes of one row.
use go_flywheel.Base.{
  All, Bool, Bool-cases, List, Option, String, [], any, ap, arith, false, false≢true, inl, inr,
  none, opt_str_eq, refl, some, str_eq, str_eq_iff, str_eq_refl, subst, sym, true, ◌&&◌, ◌++◌, ◌||◌,
  ◌∙◌, ◌∷◌, ◌≡◌, ◌≢◌, ◌⊎◌,
}
use go_flywheel.Env.{Ctx}
use go_flywheel.Insert.Conflict.{
  before_create, clash, conflict_insert_chunk, conflicts, insert_skipping_conflicts, or_object,
  prepare, skip_conflicts,
}
use go_flywheel.Insert.Row.{non_empty}
use go_flywheel.Rows.{Job, is_live}
use go_flywheel.Types.{Bytes, Error, JobState, OnOk, OnOk-at, Result, err, is_terminal, ok}

-- A key that a row stores: none where it is empty.
abbrev pub Key : String → Option String → Type 0
Key key held = (key ≡ "") × (held ≡ none) ⊎ (key ≢ "") × (held ≡ some key)

-- A row that keeps out a row with this id, this key and this active key: it has the same id, or the
-- same key, or it is not finished and has the same active key.
abbrev pub Blocks : String → String → String → Job → Type 0
Blocks id key active r =
    (r.id ≡ id)
    ⊎ (key ≢ "") × (r.unique_key ≡ some key)
    ⊎ (active ≢ "") × (is_terminal r.state ≡ false) × (r.unique_active_key ≡ some active)

-- Of some element.
abbrev pub Exists {ℓ} : {A : Type ℓ} → (A → Type 0) → List A → Type 0
Exists P [] = ⊥
Exists P (x ∷ xs) = P x ⊎ Exists P xs

-- A row not yet claimed, with this id and these keys.
abbrev pub Named : String → String → String → Job → Type 0
Named id key active j =
    (j.id ≡ id)
    × Key key j.unique_key
    × Key active j.unique_active_key
    × (j.state ≡ JobState.available)

pub non_empty-Key : (s : String) → Key s (non_empty s)
non_empty-Key s = elim (Bool-cases (str_eq s "")) [
  | inl e ↦ rw e (inl ((str_eq_iff s "").0 e, refl))
  | inr e ↦ rw e (inr (λ h. false≢true (sym e ∙ (str_eq_iff s "").1 h), refl))
]

opt_str_eq_holds :
    (a b : Option String) (key : String)
    → Key key b
    → opt_str_eq a b ≡ true
    → (key ≢ "") × (a ≡ some key)
opt_str_eq_holds none b key k h = cc
opt_str_eq_holds (some x) none key k h = cc
opt_str_eq_holds (some x) (some y) key (inl (e, n)) h = cc
opt_str_eq_holds (some x) (some y) key (inr (ne, s)) h =
    (ne, ap (λ z. some z) ((str_eq_iff x y).0 h) ∙ s)

opt_str_eq_back :
    (a b : Option String) (key : String)
    → Key key b
    → key ≢ ""
    → a ≡ some key
    → opt_str_eq a b ≡ true
opt_str_eq_back a b key (inl (e, n)) ne h = absurd (ne e)
opt_str_eq_back a b key (inr (e, s)) ne h = rw (h, s) (str_eq_refl key)

clash-Blocks :
    (id key active : String) (r j : Job)
    → Named id key active j
    → clash r j ≡ true
    → Blocks id key active r
unfolding clash
clash-Blocks id key active r j (same_id, k, a, s) h =
    elim (parts (str_eq r.id j.id) (opt_str_eq r.unique_key j.unique_key) (is_terminal r.state)
      (is_live j) (opt_str_eq r.unique_active_key j.unique_active_key) h) [
        | inl e ↦ inl ((str_eq_iff r.id j.id).0 e ∙ same_id)
        | inr (inl e) ↦ inr (inl (opt_str_eq_holds r.unique_key j.unique_key key k e))
        | inr (inr (t, e)) ↦
            let (ne, b) = opt_str_eq_holds r.unique_active_key j.unique_active_key active a e in
            inr (inr (ne, t, b))
      ]
  where
    parts :
        (x y t l z : Bool)
        → (x || y || (elim t as (λ _. Bool) [ true ↦ false | false ↦ true ]) && l && z) ≡ true
        → (x ≡ true) ⊎ (y ≡ true) ⊎ (t ≡ false) × (z ≡ true)
    parts x y t l z e = ground arith

Blocks-clash :
    (id key active : String) (r j : Job)
    → Named id key active j
    → Blocks id key active r
    → clash r j ≡ true
unfolding clash
Blocks-clash id key active r j (same_id, k, a, s) (inl e) =
    first (str_eq r.id j.id) (opt_str_eq r.unique_key j.unique_key)
      (is_live r && is_live j && opt_str_eq r.unique_active_key j.unique_active_key)
      ((str_eq_iff r.id j.id).1 (e ∙ sym same_id))
  where
    first : (x y z : Bool) → x ≡ true → (x || y || z) ≡ true
    first x y z h = ground arith
Blocks-clash id key active r j (same_id, k, a, s) (inr (inl (ne, e))) =
    second (str_eq r.id j.id) _ _ (opt_str_eq_back r.unique_key j.unique_key key k ne e)
  where
    second : (x y z : Bool) → y ≡ true → (x || y || z) ≡ true
    second x y z h = ground arith
Blocks-clash id key active r j (same_id, k, a, s) (inr (inr (ne, t, e))) =
    third (str_eq r.id j.id) (opt_str_eq r.unique_key j.unique_key) (is_terminal r.state)
      (is_live j) (opt_str_eq r.unique_active_key j.unique_active_key) t
      (ap (λ x. elim (is_terminal x) as (λ _. Bool) [ true ↦ false | false ↦ true ]) s)
      (opt_str_eq_back r.unique_active_key j.unique_active_key active a ne e)
  where
    third :
        (x y t l z : Bool)
        → t ≡ false
        → l ≡ true
        → z ≡ true
        → (x || y || (elim t as (λ _. Bool) [ true ↦ false | false ↦ true ]) && l && z) ≡ true
    third x y t l z h h' h'' = ground arith

pub conflicts-Exists :
    (id key active : String) (table : List Job) (j : Job)
    → Named id key active j
    → conflicts table j ≡ true
    → Exists (Blocks id key active) table
unfolding conflicts
conflicts-Exists id key active [] j n h = false≢true h
conflicts-Exists id key active (r ∷ rs) j n h = elim (Bool-cases (clash r j)) [
  | inl e ↦ inl (clash-Blocks id key active r j n e)
  | inr e ↦ inr (
      conflicts-Exists id key active rs j n
        (subst (λ t. (t || any (λ x. clash x j) rs) ≡ true) e h))
]

pub conflicts-All :
    (id key active : String) (table : List Job) (j : Job)
    → Named id key active j
    → conflicts table j ≡ false
    → All (λ r. ¬ Blocks id key active r) table
unfolding conflicts
conflicts-All id key active [] j n h = tt
conflicts-All id key active (r ∷ rs) j n h = elim (Bool-cases (clash r j)) [
  | inl e ↦ absurd (false≢true (sym h ∙ ap (λ t. t || any (λ x. clash x j) rs) e))
  | inr e ↦ (
    λ b. false≢true (sym e ∙ Blocks-clash id key active r j n b),
    conflicts-All id key active rs j n (subst (λ t. (t || any (λ x. clash x j) rs) ≡ false) e h),
  )
]

-- What the row hook keeps of a row, but for the columns that it fills.
abbrev pub Prepared : Job → Job → Type 0
Prepared j k =
    (k.id ≡ j.id)
    × (k.kind ≡ j.kind)
    × (k.unique_key ≡ j.unique_key)
    × (k.unique_active_key ≡ j.unique_active_key)
    × (k.state ≡ j.state)
    × (k.parent_job_id ≡ j.parent_job_id)
    × ((j.args ≡ []) ⊎ (k.args ≡ j.args))

pub before_create-Prepared : (c : Ctx) (j : Job) → OnOk (Prepared j) (before_create c j)
unfolding before_create
before_create-Prepared c j = elim (Bool-cases (str_eq j.kind "")) [
  | inl e ↦ rw e tt
  | inr e ↦ rw e (refl, refl, refl, refl, refl, refl, kept j.args)
]
  where
    kept : (b : Bytes) → (b ≡ []) ⊎ (or_object b ≡ b)
    kept [] = inl refl
    kept (x ∷ xs) = inr refl

Result-cases : (r : Result Job) → ((e : Error) × (r ≡ err e)) ⊎ ((j : Job) × (r ≡ ok j))
Result-cases (err e) = inl (e, refl)
Result-cases (ok j) = inr (j, refl)

-- One row that goes in past conflicts: it is appended, or some row of the table conflicts with it.
abbrev pub OneIn : Ctx → List Job → Job → List Job → Type 0
OneIn c table row table' =
    (j : Job) × Prepared row j
    × ((conflicts table j ≡ true) × (table' ≡ table)
        ⊎ (conflicts table j ≡ false) × (table' ≡ table ++ j ∷ []))

pub insert_one-OneIn :
    (c : Ctx) (table : List Job) (row : Job)
    → OnOk (λ r. OneIn c table row r.0) (conflict_insert_chunk c table (row ∷ []))
unfolding conflict_insert_chunk insert_skipping_conflicts prepare skip_conflicts
insert_one-OneIn c table row = elim (Result-cases (before_create c row)) [
  | inl (e, h) ↦ rw h tt
  | inr (j, h) ↦
      let kept = OnOk-at (Prepared row) (before_create c row) j (before_create-Prepared c row) h in
      elim (Bool-cases (conflicts table j)) [
        | inl t ↦ rw (h, t) (j, kept, inl (t, refl))
        | inr t ↦ rw (h, t) (j, kept, inr (t, refl))
      ]
]
