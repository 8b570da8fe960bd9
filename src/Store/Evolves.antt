-- ===== src/Store/Evolves.antt =====
-- How a jobs table changes, row by row: which moves of a row's state a statement makes, whether it
-- removes rows, and whether it adds some.
use go_flywheel.Base.{
  Bool, Bool-cases, List, [], arith, false, false≢true, inl, inr, refl, true, update_where, ◌++◌,
  ◌∙◌, ◌∷◌, ◌≡◌,
}
use go_flywheel.Rows.{Job}
use go_flywheel.Types.{JobState, state_eq}

pub record Effects : Type 0 where
  pub moves : JobState → JobState → Bool
  pub removes : JobState → Bool
  pub adds : Bool

-- Every row keeps its place and its id while its state makes a move, or is removed; added rows come
-- last.
pub data Evolves (e : Effects) : List Job → List Job → Type 0 where
  at_end : Evolves e [] []
  row_added : (k : Job) (ks : List Job) → e.adds ≡ true → Evolves e [] ks → Evolves e [] (k ∷ ks)
  row_kept :
      (j k : Job) (js ks : List Job)
      → k.id ≡ j.id
      → e.moves j.state k.state ≡ true
      → Evolves e js ks
      → Evolves e (j ∷ js) (k ∷ ks)
  row_gone :
      (j : Job) (js ks : List Job)
      → e.removes j.state ≡ true
      → Evolves e js ks
      → Evolves e (j ∷ js) ks

-- Statements that leave every state as it is, and may add rows.
abbrev pub stay : Effects
stay = record { moves = state_eq; removes = λ s. false; adds = true }

pub state_eq_same : (s t : JobState) → state_eq s t ≡ true → s ≡ t
state_eq_same s t h = ground arith

module _ (e : Effects) (idle : (s : JobState) → e.moves s s ≡ true) where
  pub Evolves-refl : (js : List Job) → Evolves e js js
  Evolves-refl [] = at_end
  Evolves-refl (j ∷ js) = row_kept j j js js refl (idle j.state) (Evolves-refl js)

  pub Evolves-update :
      (p : Job → Bool) (f : Job → Job)
      → ((j : Job) → p j ≡ true → ((f j).id ≡ j.id) × (e.moves j.state (f j).state ≡ true))
      → (js : List Job) → Evolves e js (update_where p f js)
  Evolves-update p f h [] = at_end
  Evolves-update p f h (j ∷ js) =
      let rest = Evolves-update p f h js in
      elim (Bool-cases (p j)) [
        | inl t ↦ rw t (row_kept j (f j) js _ (h j t).0 (h j t).1 rest)
        | inr t ↦ rw t (row_kept j j js _ refl (idle j.state) rest)
      ]

  pub Evolves-append : e.adds ≡ true → (js ks : List Job) → Evolves e js (js ++ ks)
  Evolves-append a [] [] = at_end
  Evolves-append a [] (k ∷ ks) = row_added k ks a (Evolves-append a [] ks)
  Evolves-append a (j ∷ js) ks = row_kept j j js _ refl (idle j.state) (Evolves-append a js ks)

module _ (e : Effects) (adding : e.adds ≡ true) where
  pub Evolves-stay : (js ks ls : List Job) → Evolves e js ks → Evolves stay ks ls → Evolves e js ls
  Evolves-stay js ks ls at_end at_end = at_end
  Evolves-stay js ks ls at_end (row_added l ls' _ s) =
      row_added l ls' adding (Evolves-stay [] [] ls' at_end s)
  Evolves-stay js ks ls (row_added k ks' a r) (row_kept k' l _ ls' _ _ s) =
      row_added l ls' adding (Evolves-stay [] ks' ls' r s)
  Evolves-stay js ks ls (row_added k ks' a r) (row_gone k' _ _ never _) = absurd (false≢true never)
  Evolves-stay js ks ls (row_kept j k js' ks' same mv r) (row_kept k' l _ ls' same' mv' s) =
      row_kept j l js' ls' (same' ∙ same) (rw (← state_eq_same k.state l.state mv') mv)
        (Evolves-stay js' ks' ls' r s)
  Evolves-stay js ks ls (row_kept j k js' ks' same mv r) (row_gone k' _ _ never _) =
      absurd (false≢true never)
  Evolves-stay js ks ls (row_gone j js' _ over r) s =
      row_gone j js' ls over (Evolves-stay js' ks ls r s)
