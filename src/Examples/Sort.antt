-- ===== src/Examples/Sort.antt =====
-- An ORDER BY that the claim's theorems can be applied to: insertion sort.
use go_flywheel.Base.{
  All, Bool, Bool-cases, List, Sorted, [], ap, arith, count, false, if◌then◌else◌, inl, inr, leb,
  length, refl, suc, true, ℕ, ◌&&◌, ◌||◌, ◌∙◌, ◌∷◌, ◌≡◌,
}
use go_flywheel.Base.Int.{eq_ℤ, ltb_ℤ, ℤ}
use go_flywheel.Driver.Claim.{claims_before}
use go_flywheel.Driver.Sweep.{leases_before}
use go_flywheel.Rows.{Job}
use go_flywheel.Store.Ids.{OrderLaws}

abbrev insert_row : (Job → Job → Bool) → Job → List Job → List Job
insert_row before j [] = j ∷ []
insert_row before j (x ∷ xs) =
    let rest = insert_row before j xs in if before j x then j ∷ x ∷ xs else x ∷ rest

abbrev pub sort_rows : (Job → Job → Bool) → List Job → List Job
sort_rows before [] = []
sort_rows before (j ∷ js) = insert_row before j (sort_rows before js)

module _ (before : Job → Job → Bool) (total : (a b : Job) → before a b ≡ false → before b a ≡ true)
    (trans : (a b c : Job) → before a b ≡ true → before b c ≡ true → before a c ≡ true) where
  All-trans :
      (j x : Job) (xs : List Job)
      → before j x ≡ true
      → All (λ y. before x y ≡ true) xs
      → All (λ y. before j y ≡ true) xs
  All-trans j x [] h a = tt
  All-trans j x (y ∷ ys) h a = (trans j x y h a.0, All-trans j x ys h a.1)

  All-insert_row :
      (z j : Job) (xs : List Job)
      → before z j ≡ true
      → All (λ y. before z y ≡ true) xs
      → All (λ y. before z y ≡ true) (insert_row before j xs)
  All-insert_row z j [] h a = (h, tt)
  All-insert_row z j (x ∷ xs) h a = elim (Bool-cases (before j x)) [
    | inl e ↦ rw e (h, a)
    | inr e ↦ rw e (a.0, All-insert_row z j xs h a.1)
  ]

  insert_row-Sorted :
      (j : Job) (xs : List Job) → Sorted before xs → Sorted before (insert_row before j xs)
  insert_row-Sorted j [] s = (tt, tt)
  insert_row-Sorted j (x ∷ xs) s = elim (Bool-cases (before j x)) [
    | inl e ↦ rw e ((e, All-trans j x xs e s.0), s)
    | inr e ↦ rw e (All-insert_row x j xs (total j x e) s.0, insert_row-Sorted j xs s.1)
  ]

  sort_rows-Sorted : (js : List Job) → Sorted before (sort_rows before js)
  sort_rows-Sorted [] = tt
  sort_rows-Sorted (j ∷ js) = insert_row-Sorted j (sort_rows before js) (sort_rows-Sorted js)

  count-insert_row :
      (p : Job → Bool) (j : Job) (xs : List Job)
      → count p (insert_row before j xs) ≡ count p (j ∷ xs)
  count-insert_row p j [] = refl
  count-insert_row p j (x ∷ xs) = ground (arith, count-insert_row p j xs)

  count-sort_rows : (p : Job → Bool) (js : List Job) → count p (sort_rows before js) ≡ count p js
  count-sort_rows p [] = refl
  count-sort_rows p (j ∷ js) =
      ground (arith, count-insert_row p j (sort_rows before js), count-sort_rows p js)

  sort_rows-OrderLaws : OrderLaws before (sort_rows before)
  sort_rows-OrderLaws = record { same_rows = count-sort_rows; sorted = sort_rows-Sorted }

int_total :
    (a b : ℤ) (s t : ℕ)
    → (ltb_ℤ a b || eq_ℤ a b && leb s t) ≡ false
    → (ltb_ℤ b a || eq_ℤ b a && leb t s) ≡ true
int_total a b s t h = ground arith

int_trans :
    (a b c : ℤ) (s t u : ℕ)
    → (ltb_ℤ a b || eq_ℤ a b && leb s t) ≡ true
    → (ltb_ℤ b c || eq_ℤ b c && leb t u) ≡ true
    → (ltb_ℤ a c || eq_ℤ a c && leb s u) ≡ true
int_trans a b c s t u h k = ground arith

pub claim_order-OrderLaws : OrderLaws claims_before (sort_rows claims_before)
unfolding claims_before
claim_order-OrderLaws =
    sort_rows-OrderLaws claims_before
      (λ a b. int_total a.priority b.priority a.scheduled_at b.scheduled_at)
      (λ a b c.
        int_trans a.priority b.priority c.priority a.scheduled_at b.scheduled_at c.scheduled_at)

pub lease_order-OrderLaws : OrderLaws leases_before (sort_rows leases_before)
unfolding leases_before
lease_order-OrderLaws =
    sort_rows-OrderLaws leases_before (λ a b h. ground arith) (λ a b c h k. ground arith)

length-insert_row :
    (before : Job → Job → Bool) (j : Job) (xs : List Job)
    → length (insert_row before j xs) ≡ suc (length xs)
length-insert_row before j [] = refl
length-insert_row before j (x ∷ xs) = ground (arith, length-insert_row before j xs)

pub length-sort_rows :
    (before : Job → Job → Bool) (js : List Job) → length (sort_rows before js) ≡ length js
length-sort_rows before [] = refl
length-sort_rows before (j ∷ js) =
    length-insert_row before j (sort_rows before js) ∙ ap suc (length-sort_rows before js)
