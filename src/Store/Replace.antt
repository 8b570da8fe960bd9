-- ===== src/Store/Replace.antt =====
-- About the unique indexes under an UPDATE that a database checks: one that writes a conflicting row
-- fails.
use go_flywheel.Base.{
  Bool, Bool-cases, List, Memᴰ, Option, String, [], any, arith, false, false≢true, if◌then◌else◌,
  inl, inr, none, not, opt_str_eq, refl, some, str_eq, str_eq_iff, str_eq_refl, sym, true,
  update_where, ◌&&◌, ◌||◌, ◌∙◌, ◌∷◌, ◌≡◌,
}
use go_flywheel.Insert.Conflict.{clash}
use go_flywheel.Rows.{Job, is_live}
use go_flywheel.Store.Ids.{any-Memᴰ}
use go_flywheel.Store.Unique.{Unique, false_or}

pub str_eq_comm : (s t : String) → str_eq s t ≡ str_eq t s
str_eq_comm s t = elim (Bool-cases (str_eq s t)) [
  | inl e ↦ rw ((str_eq_iff s t).0 e) refl
  | inr e ↦ elim (Bool-cases (str_eq t s)) [
    | inl e' ↦ rw ((str_eq_iff t s).0 e') refl
    | inr e' ↦ e ∙ sym e'
  ]
]

opt_str_eq_comm : (s t : Option String) → opt_str_eq s t ≡ opt_str_eq t s
opt_str_eq_comm none none = refl
opt_str_eq_comm none (some t) = refl
opt_str_eq_comm (some s) none = refl
opt_str_eq_comm (some s) (some t) = str_eq_comm s t

clash_comm : (r j : Job) → clash r j ≡ clash j r
unfolding clash
clash_comm r j =
    join _ _ _ _ _ _ (is_live r) (is_live j) (str_eq_comm r.id j.id)
      (opt_str_eq_comm r.unique_key j.unique_key)
      (opt_str_eq_comm r.unique_active_key j.unique_active_key)
  where
    join :
        (a b c a' b' c' l m : Bool)
        → a ≡ a'
        → b ≡ b'
        → c ≡ c'
        → (a || b || l && m && c) ≡ (a' || b' || m && l && c')
    join a b c a' b' c' l m e f g = ground arith

clash-ids : (r j : Job) → clash r j ≡ false → str_eq r.id j.id ≡ false
unfolding clash
clash-ids r j h =
    first (str_eq r.id j.id) (opt_str_eq r.unique_key j.unique_key)
      (is_live r && is_live j && opt_str_eq r.unique_active_key j.unique_active_key) h
  where
    first : (a b c : Bool) → (a || b || c) ≡ false → a ≡ false
    first a b c k = ground arith

pub any-none :
    (q : Job → Bool) (js : List Job) (j : Job) → any q js ≡ false → Memᴰ j js → q j ≡ false
any-none q js j h m = elim (Bool-cases (q j)) [
  | inl e ↦ absurd (false≢true (sym h ∙ any-Memᴰ q j js m e))
  | inr e ↦ e
]

module _ (p : Job → Bool) (f : Job → Job) (id : String)
    (named : (j : Job) → p j ≡ true → str_eq j.id id ≡ true) where
  -- Two rows as the update leaves them.
  rows_apart :
      (j k : Job)
      → clash j k ≡ false
      → (p j ≡ true → (not (str_eq k.id j.id) && clash k (f j)) ≡ false)
      → (p k ≡ true → (not (str_eq j.id k.id) && clash j (f k)) ≡ false)
      → clash (if p j then f j else j) (if p k then f k else k) ≡ false
  rows_apart j k h left right = elim (Bool-cases (p j)) [
    | inl e ↦ elim (Bool-cases (p k)) [
      | inl e' ↦ absurd (
          false≢true (
            sym (ids h)
            ∙ rw ((str_eq_iff j.id id).0 (named j e), (str_eq_iff k.id id).0 (named k e'))
                (str_eq_refl id)))
      | inr e' ↦
          rw (e, e')
            (clash_comm (f j) k
              ∙ other (str_eq k.id j.id) _ (str_eq_comm k.id j.id ∙ ids h) (left e))
    ]
    | inr e ↦ elim (Bool-cases (p k)) [
      | inl e' ↦ rw (e, e') (other (str_eq j.id k.id) _ (ids h) (right e'))
      | inr e' ↦ rw (e, e') h
    ]
  ]
    where
      other : (a b : Bool) → a ≡ false → (not a && b) ≡ false → b ≡ false
      other a b s t = ground arith

      ids : clash j k ≡ false → str_eq j.id k.id ≡ false
      ids t = clash-ids j k t

  head_apart :
      (j : Job) (rest : List Job)
      → ((k : Job) → Memᴰ k rest → clash (if p j then f j else j) (if p k then f k else k) ≡ false)
      → any (clash (if p j then f j else j)) (update_where p f rest) ≡ false
  head_apart j [] h = refl
  head_apart j (k ∷ ks) h =
      false_or _ _ (h k (Memᴰ.head refl)) (head_apart j ks (λ x m. h x (Memᴰ.tail m)))

  pub checked-Unique :
      (js : List Job)
      → Unique js
      → ((r j : Job)
          → Memᴰ r js
          → Memᴰ j js
          → p j ≡ true
          → (not (str_eq r.id j.id) && clash r (f j)) ≡ false)
      → Unique (update_where p f js)
  checked-Unique [] u h = tt
  checked-Unique (j ∷ js) u h = (
    head_apart j js (λ k m.
        rows_apart j k (any-none (clash j) js k u.0 m) (h k j (Memᴰ.tail m) (Memᴰ.head refl))
          (h j k (Memᴰ.head refl) (Memᴰ.tail m))),
    checked-Unique js u.1 (λ r k m n. h r k (Memᴰ.tail m) (Memᴰ.tail n)),
  )
