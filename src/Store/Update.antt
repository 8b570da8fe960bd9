-- ===== src/Store/Update.antt =====
-- Updates, appends and predicates on every row.
use go_flywheel.Base.{
  All, Bool, Bool-cases, List, [], any, ap, arith, false, find, if◌then◌else◌, inl, inr, none, refl,
  some, sym, true, update_where, ◌++◌, ◌∙◌, ◌∷◌, ◌≡◌,
}

module _ {ℓ κ} {A : Type ℓ} (P : A → Type κ) where
  pub All-update_where :
      (p : A → Bool) (f : A → A)
      → ((x : A) → p x ≡ true → P x → P (f x))
      → (xs : List A) → All P xs
      → All P (update_where p f xs)
  All-update_where p f h [] a = tt
  All-update_where p f h (x ∷ xs) a = (head, All-update_where p f h xs a.1)
    where
      head : P (if p x then f x else x)
      head = elim (Bool-cases (p x)) [ inl e ↦ rw e (h x e a.0) | inr e ↦ rw e a.0 ]

  pub All-append : (xs ys : List A) → All P xs → All P ys → All P (xs ++ ys)
  All-append [] ys a b = b
  All-append (x ∷ xs) ys a b = (a.0, All-append xs ys a.1 b)

module _ {ℓ} {A : Type ℓ} (p : A → Bool) where
  -- An update whose test no row passes changes nothing.
  pub update_where_none : (f : A → A) (xs : List A) → any p xs ≡ false → update_where p f xs ≡ xs
  update_where_none f [] h = refl
  update_where_none f (x ∷ xs) h = ground (arith, update_where_none f xs)

-- The row that a query finds after an update of what it looks for.
pub find-update_where {ℓ} :
    {A : Type ℓ} (p : A → Bool) (f : A → A)
    → ((x : A) → p x ≡ true → p (f x) ≡ true)
    → (xs : List A) (x : A) → find p xs ≡ some x
    → find p (update_where p f xs) ≡ some (f x)
find-update_where p f h [] x e = cc
find-update_where p f h (y ∷ ys) x e = elim (Bool-cases (p y)) [
  | inl t ↦
      rw (t, h y t) (ap (λ o. elim o [ none ↦ none | some z ↦ some (f z) ]) (sym (here t) ∙ e))
  | inr t ↦ rw (t, t) (find-update_where p f h ys x (sym (behind t) ∙ e))
]
  where
    here : p y ≡ true → find p (y ∷ ys) ≡ some y
    here t = rw t refl

    behind : p y ≡ false → find p (y ∷ ys) ≡ find p ys
    behind t = rw t refl
