-- ===== src/Store/Unique.antt =====
-- The unique indexes of indexes.go on the jobs table, and the updates and inserts that touch them.
use go_flywheel.Base.{
  Bool, Bool-cases, List, [], any, arith, false, if◌then◌else◌, inl, inr, opt_str_eq, refl, str_eq,
  true, update_where, ◌&&◌, ◌++◌, ◌||◌, ◌∷◌, ◌≡◌,
}
use go_flywheel.Insert.Conflict.{clash, conflicts, skip_conflicts}
use go_flywheel.Rows.{Job, is_live}

-- Each row against those behind it.
abbrev pub Unique : List Job → Type 0
Unique [] = Unit {0}
Unique (j ∷ js) = (any (clash j) js ≡ false) × Unique js

-- What an update may do to a row that the indexes read: nothing to its id and keys, and it may end
-- a live row but not revive a finished one.
pub record Tame (j k : Job) : Type 0 where
  pub same_id : k.id ≡ j.id
  pub same_key : k.unique_key ≡ j.unique_key
  pub same_active_key : k.unique_active_key ≡ j.unique_active_key
  pub live_before : is_live k ≡ true → is_live j ≡ true

Tame-refl : (j : Job) → Tame j j
Tame-refl j = record {
  same_id = refl;
  same_key = refl;
  same_active_key = refl;
  live_before = λ h. h;
}

-- A clash that needs more live rows is ruled out where one that needs fewer is.
or_live_mono :
    (a b l l' m m' k : Bool)
    → (l' ≡ true → l ≡ true)
    → (m' ≡ true → m ≡ true)
    → (a || b || l && m && k) ≡ false
    → (a || b || l' && m' && k) ≡ false
or_live_mono a b l l' m m' k f g h = ground arith

clash-Tame : {r r' j j' : Job} → Tame r r' → Tame j j' → clash r j ≡ false → clash r' j' ≡ false
unfolding clash
clash-Tame {r} {r'} {j} {j'} t u h =
    rw (t.same_id, t.same_key, t.same_active_key, u.same_id, u.same_key, u.same_active_key)
      (or_live_mono (str_eq r.id j.id) (opt_str_eq r.unique_key j.unique_key) (is_live r)
        (is_live r') (is_live j) (is_live j') (opt_str_eq r.unique_active_key j.unique_active_key)
        t.live_before u.live_before h)

or_false : (a b : Bool) → (a || b) ≡ false → (a ≡ false) × (b ≡ false)
or_false a b h = (ground arith, ground arith)

pub false_or : (a b : Bool) → a ≡ false → b ≡ false → (a || b) ≡ false
false_or a b h k = ground arith

module _ (p : Job → Bool) (f : Job → Job) (tame : (j : Job) → p j ≡ true → Tame j (f j)) where
  Tame-row : (j : Job) → Tame j (if p j then f j else j)
  Tame-row j = elim (Bool-cases (p j)) [ inl e ↦ rw e (tame j e) | inr e ↦ rw e (Tame-refl j) ]

  clash-update_where :
      (r r' : Job)
      → Tame r r'
      → (js : List Job) → any (clash r) js ≡ false
      → any (clash r') (update_where p f js) ≡ false
  clash-update_where r r' t [] h = refl
  clash-update_where r r' t (j ∷ js) h =
      let (a, b) = or_false (clash r j) (any (clash r) js) h in
      false_or _ _ (clash-Tame t (Tame-row j) a) (clash-update_where r r' t js b)

  -- An update that leaves ids and keys alone and revives no finished row keeps the indexes.
  pub update_where-Unique : (js : List Job) → Unique js → Unique (update_where p f js)
  update_where-Unique [] u = tt
  update_where-Unique (j ∷ js) u =
      (clash-update_where j _ (Tame-row j) js u.0, update_where-Unique js u.1)

any_append :
    (q : Job → Bool) (xs : List Job) (j : Job)
    → any q xs ≡ false
    → q j ≡ false
    → any q (xs ++ j ∷ []) ≡ false
any_append q [] j h k = false_or _ _ k refl
any_append q (x ∷ xs) j h k =
    let (a, b) = or_false (q x) (any q xs) h in false_or _ _ a (any_append q xs j b k)

-- A row that conflicts with none may be added.
pub append-Unique :
    (js : List Job) (j : Job) → Unique js → conflicts js j ≡ false → Unique (js ++ j ∷ [])
unfolding conflicts
append-Unique [] j u h = (refl, tt)
append-Unique (r ∷ rs) j u h =
    let (a, b) = or_false (clash r j) (any (λ x. clash x j) rs) h in
    (any_append (clash r) rs j u.0 a, append-Unique rs j u.1 b)

pub skip_conflicts-Unique :
    (table rows : List Job) → Unique table → Unique (skip_conflicts table rows)
unfolding skip_conflicts
skip_conflicts-Unique table [] u = u
skip_conflicts-Unique table (j ∷ js) u =
    skip_conflicts-Unique (if conflicts table j then table else table ++ j ∷ []) js
      (elim (Bool-cases (conflicts table j)) [
        | inl e ↦ rw e u
        | inr e ↦ rw e (append-Unique table j u e)
      ])
