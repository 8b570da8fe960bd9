-- ===== src/Store/Ids.antt =====
-- Statements that name rows by id. Under the unique indexes an id names one row, so that an update
-- `WHERE id IN ids` reaches exactly the rows whose ids were collected.
use go_flywheel.Base.{
  All, Bool, Bool-cases, List, Memᴰ, Sorted, String, [], any, ap, arith, count, false, false≢true,
  if◌then◌else◌, inl, inr, not, refl, select, str_eq, str_eq_iff, str_eq_refl, str_mem, suc, sym,
  take, true, update_where, zero, ℕ, ◌&&◌, ◌<◌, ◌||◌, ◌∙◌, ◌∷◌, ◌≡◌,
}
use go_flywheel.Insert.Conflict.{clash, ids_of}
use go_flywheel.Rows.{Job, in_scope}
use go_flywheel.Store.Unique.{Unique}

module _ {ℓ} {A : Type ℓ} where
  pub any_mono :
      (p q : A → Bool)
      → ((x : A) → p x ≡ true → q x ≡ true)
      → (xs : List A) → any p xs ≡ true
      → any q xs ≡ true
  any_mono p q h [] e = e
  any_mono p q h (x ∷ xs) e = ground (arith, h x, any_mono p q h xs)

  pub any-take : (p : A → Bool) (n : ℕ) (xs : List A) → any p (take n xs) ≡ true → any p xs ≡ true
  any-take p zero xs e = cc
  any-take p (suc n) [] e = e
  any-take p (suc n) (x ∷ xs) e = ground (arith, any-take p n xs)

  pub any-count : (p : A → Bool) (xs : List A) → any p xs ≡ true → 0 < count p xs
  any-count p [] e = cc
  any-count p (x ∷ xs) e = ground (arith, any-count p xs)

  pub count-any : (p : A → Bool) (xs : List A) → 0 < count p xs → any p xs ≡ true
  count-any p [] h = absurd (omega arith)
  count-any p (x ∷ xs) h = ground (arith, count-any p xs)

  pub any-select :
      (p q : A → Bool) (xs : List A) → any p (select q xs) ≡ true → any (λ x. p x && q x) xs ≡ true
  any-select p q [] e = e
  any-select p q (x ∷ xs) e = ground (arith, any-select p q xs)

  pub update_where_agree :
      (p q : A → Bool) (f : A → A) (xs : List A)
      → All (λ x. p x ≡ q x) xs
      → update_where p f xs ≡ update_where q f xs
  update_where_agree p q f [] a = refl
  update_where_agree p q f (x ∷ xs) a = rw (a.0, update_where_agree p q f xs a.1)

pub any-ids_of :
    (id : String) (xs : List Job)
    → str_mem id (ids_of xs) ≡ true
    → any (λ x. str_eq id x.id) xs ≡ true
any-ids_of id [] e = e
any-ids_of id (x ∷ xs) e = ground (arith, any-ids_of id xs)

-- What ORDER BY gives: the same rows, as often, in a sequence where no row is out of place. How it
-- breaks ties is left open.
pub record OrderLaws (before : Job → Job → Bool) (order : List Job → List Job) : Type 0 where
  pub same_rows : (p : Job → Bool) (js : List Job) → count p (order js) ≡ count p js
  pub sorted : (js : List Job) → Sorted before (order js)

clash_of_same_id : (r j : Job) → str_eq r.id j.id ≡ true → clash r j ≡ true
unfolding clash
clash_of_same_id r j h = rw h

str_eq_sym : (s t : String) → str_eq s t ≡ true → str_eq t s ≡ true
str_eq_sym s t h = rw ((str_eq_iff s t).0 h) (str_eq_refl t)

pub any-Memᴰ : (p : Job → Bool) (j : Job) (js : List Job) → Memᴰ j js → p j ≡ true → any p js ≡ true
any-Memᴰ p j [] m h = elim m [ ]
any-Memᴰ p j (x ∷ xs) (Memᴰ.head e) h = rw (← e) (rw h refl)
any-Memᴰ p j (x ∷ xs) (Memᴰ.tail m) h = ground (arith, any-Memᴰ p j xs m h)

-- Every row that has the id of a row that passes the test passes it too.
pub id_names_one :
    (q : Job → Bool) (js : List Job) (j : Job)
    → Unique js
    → Memᴰ j js
    → any (λ x. str_eq j.id x.id && q x) js ≡ true
    → q j ≡ true
id_names_one q [] j u m h = elim m [ ]
id_names_one q (x ∷ xs) j u (Memᴰ.head e) h = elim (Bool-cases (q j)) [
  | inl t ↦ t
  | inr f ↦
      absurd (
        false≢true
          (sym u.0 ∙ any_mono (λ y. str_eq j.id y.id && q y) (clash x) there xs (behind f)))
]
  where
    there : (y : Job) → (str_eq j.id y.id && q y) ≡ true → clash x y ≡ true
    there y t = clash_of_same_id x y (rw (← e) (ground arith))

    behind : q j ≡ false → any (λ y. str_eq j.id y.id && q y) xs ≡ true
    behind f =
        skip (str_eq j.id x.id) (q x) (any (λ y. str_eq j.id y.id && q y) xs) (ap q (sym e) ∙ f) h
      where
        skip : (a b r : Bool) → b ≡ false → (a && b || r) ≡ true → r ≡ true
        skip a b r k t = ground arith
id_names_one q (x ∷ xs) j u (Memᴰ.tail m) h =
    id_names_one q xs j u.1 m
      (skip (str_eq j.id x.id) (q x) (any (λ y. str_eq j.id y.id && q y) xs) apart h)
  where
    apart : str_eq j.id x.id ≡ false
    apart = elim (Bool-cases (str_eq j.id x.id)) [
      | inl t ↦ absurd (
          false≢true
            (sym u.0 ∙ any-Memᴰ (clash x) j xs m (clash_of_same_id x j (str_eq_sym j.id x.id t))))
      | inr f ↦ f
    ]

    skip : (a b r : Bool) → a ≡ false → (a && b || r) ≡ true → r ≡ true
    skip a b r k t = ground arith

pub All-of-Memᴰ {κ} : (P : Job → Type κ) (js : List Job) → ((j : Job) → Memᴰ j js → P j) → All P js
All-of-Memᴰ P [] h = tt
All-of-Memᴰ P (x ∷ xs) h = (h x (Memᴰ.head refl), All-of-Memᴰ P xs (λ j m. h j (Memᴰ.tail m)))

-- An update by ids that were all read off rows passing a test updates rows that pass it.
pub update_by_ids :
    (q : Job → Bool) (f : Job → Job) (js : List Job) (ids : List String)
    → Unique js
    → ((id : String) → str_mem id ids ≡ true → any (λ x. str_eq id x.id && q x) js ≡ true)
    → update_where (λ j. in_scope j && str_mem j.id ids) f js
      ≡ update_where (λ j. q j && (in_scope j && str_mem j.id ids)) f js
update_by_ids q f js ids u h =
    update_where_agree (λ j. in_scope j && str_mem j.id ids)
      (λ j. q j && (in_scope j && str_mem j.id ids)) f js
      (All-of-Memᴰ _ js λ j m.
        implied (in_scope j) (str_mem j.id ids) (q j) λ e. id_names_one q js j u m (h j.id e))
  where
    implied : (s a b : Bool) → (a ≡ true → b ≡ true) → (s && a) ≡ (b && (s && a))
    implied s a b k = ground arith

-- The ids of the first rows that an ordered query returns are ids of rows that pass its test.
pub chosen_pass :
    (before : Job → Job → Bool) (order : List Job → List Job)
    → OrderLaws before order
    → (q : Job → Bool) (n : ℕ) (js : List Job) (id : String)
    → str_mem id (ids_of (take n (order (select q js)))) ≡ true
    → any (λ x. str_eq id x.id && q x) js ≡ true
chosen_pass before order laws q n js id e =
    let p : Job → Bool = λ x. str_eq id x.id in
    let found =
      any-take p n (order (select q js)) (any-ids_of id (take n (order (select q js))) e) in
    any-select p q js (
      count-any p (select q js)
        (rw (← laws.same_rows p (select q js)) (any-count p (order (select q js)) found)))

-- So are the ids of those of them that pass a second test, of rows that pass both.
pub chosen_part_pass :
    (before : Job → Job → Bool) (order : List Job → List Job)
    → OrderLaws before order
    → (q t : Job → Bool) (n : ℕ) (js : List Job) (id : String)
    → str_mem id (ids_of (select t (take n (order (select q js))))) ≡ true
    → any (λ x. str_eq id x.id && (t x && q x)) js ≡ true
chosen_part_pass before order laws q t n js id e =
    let p : Job → Bool = λ x. str_eq id x.id && t x in
    let rows = take n (order (select q js)) in
    let found =
      any-take p n (order (select q js))
        (any-select (λ x. str_eq id x.id) t rows (any-ids_of id (select t rows) e)) in
    any_mono (λ x. p x && q x) (λ x. str_eq id x.id && (t x && q x))
      (λ x. regroup (str_eq id x.id) (t x) (q x)) js
      (any-select p q js (
        count-any p (select q js)
          (rw (← laws.same_rows p (select q js)) (any-count p (order (select q js)) found))))
  where
    regroup : (a b c : Bool) → (a && b && c) ≡ true → (a && (b && c)) ≡ true
    regroup a b c h = ground arith

pub ids_of-split :
    (t : Job → Bool) (id : String) (js : List Job)
    → str_mem id (ids_of js)
      ≡ (str_mem id (ids_of (select t js)) || str_mem id (ids_of (select (λ j. not (t j)) js)))
ids_of-split t id [] = refl
ids_of-split t id (j ∷ js) = elim (Bool-cases (t j)) [
  | inl e ↦ rw e (rw (ids_of-split t id js) (assoc (str_eq id j.id) _ _))
  | inr e ↦ rw e (rw (ids_of-split t id js) (swap (str_eq id j.id) _ _))
]
  where
    assoc : (a b c : Bool) → (a || (b || c)) ≡ (a || b || c)
    assoc a b c = ground arith

    swap : (a b c : Bool) → (a || (b || c)) ≡ (b || (a || c))
    swap a b c = ground arith

-- Two updates in a row are one, where they are on each row.
pub update_twice_agree :
    (p q r : Job → Bool) (f g h : Job → Job) (js : List Job)
    → All
        (λ j. let k = if q j then g j else j in (if p k then f k else k) ≡ (if r j then h j else j))
        js
    → update_where p f (update_where q g js) ≡ update_where r h js
update_twice_agree p q r f g h [] a = refl
update_twice_agree p q r f g h (j ∷ js) a = rw (a.0, update_twice_agree p q r f g h js a.1)
