-- ===== src/Store/Counts.antt =====
-- How statements change the number of rows that a test holds of.
use go_flywheel.Base.{
  All, Bool, Bool-cases, List, [], any, arith, count, false, if◌then◌else◌, inl, inr, length, refl,
  select, suc, take, true, update_where, zero, ℕ, ◌&&◌, ◌++◌, ◌+◌, ◌<◌, ◌∷◌, ◌≡◌,
}

module _ {ℓ} {A : Type ℓ} where
  -- An update that ends the test on every row that it selects.
  pub count-update_ends :
      (e p : A → Bool) (f : A → A)
      → ((x : A) → p x ≡ true → e (f x) ≡ false)
      → (xs : List A) → count e (update_where p f xs) + count (λ x. e x && p x) xs ≡ count e xs
  count-update_ends e p f h [] = refl
  count-update_ends e p f h (x ∷ xs) = elim (Bool-cases (p x)) [
    | inl k ↦ rw k (rw (h x k) (ended (e x) _ _ _ (count-update_ends e p f h xs)))
    | inr k ↦ rw k (kept (e x) _ _ _ (count-update_ends e p f h xs))
  ]
    where
      ended :
          (b : Bool) (m n t : ℕ)
          → m + n ≡ t
          → m + (if b && true then suc n else n) ≡ (if b then suc t else t)
      ended b m n t k = ground arith

      kept :
          (b : Bool) (m n t : ℕ)
          → m + n ≡ t
          → (if b then suc m else m) + (if b && false then suc n else n) ≡ (if b then suc t else t)
      kept b m n t k = ground arith

  -- An update that does not touch the test.
  pub count-update_same :
      (e p : A → Bool) (f : A → A)
      → ((x : A) → e (f x) ≡ e x)
      → (xs : List A) → count e (update_where p f xs) ≡ count e xs
  count-update_same e p f h [] = refl
  count-update_same e p f h (x ∷ xs) = elim (Bool-cases (p x)) [
    | inl k ↦ rw k (rw (h x, count-update_same e p f h xs))
    | inr k ↦ rw k (rw (count-update_same e p f h xs))
  ]

  pub count-append :
      (e : A → Bool) (xs : List A) (x : A) → e x ≡ false → count e (xs ++ x ∷ []) ≡ count e xs
  count-append e [] x h = rw h
  count-append e (y ∷ ys) x h = rw (count-append e ys x h)

  pub count-agree :
      (p q : A → Bool) (xs : List A) → All (λ x. p x ≡ q x) xs → count p xs ≡ count q xs
  count-agree p q [] a = refl
  count-agree p q (x ∷ xs) a = rw (a.0, count-agree p q xs a.1)

  pub count_none : (p : A → Bool) (xs : List A) → count p xs ≡ 0 → any p xs ≡ false
  count_none p [] h = refl
  count_none p (x ∷ xs) h = ground (arith, count_none p xs)

  pub count-false : (xs : List A) (p : A → Bool) → count (λ x. p x && false) xs ≡ 0
  count-false [] p = refl
  count-false (x ∷ xs) p = rw (never (p x)) (count-false xs p)
    where
      never : (b : Bool) → (b && false) ≡ false
      never b = ground arith

  pub any-select_back :
      (p q : A → Bool) (xs : List A) → any (λ x. p x && q x) xs ≡ true → any p (select q xs) ≡ true
  any-select_back p q [] e = e
  any-select_back p q (x ∷ xs) e = ground (arith, any-select_back p q xs)

  -- A prefix that is shorter than was asked for is the whole list.
  pub take_short : (n : ℕ) (xs : List A) → length (take n xs) < n → take n xs ≡ xs
  take_short zero xs h = absurd (omega arith)
  take_short (suc n) [] h = refl
  take_short (suc n) (x ∷ xs) h = rw (take_short n xs (omega arith))
