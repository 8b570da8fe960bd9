-- ===== src/Limiter/Permits.antt =====
-- About Release of internal/core/limiter_db.go: the permits of a grant, given back together or one
-- by one.
use mathlib.Core.List.{append-nil}
use go_flywheel.Base.{
  Bool, Bool-cases, List, String, [], any, ap, arith, false, find, if◌then◌else◌, inl, inr, ltb,
  not, refl, select, some, str_eq, str_eq_refl, subst, suc, sym, true, update_where, zero, ℕ, ◌&&◌,
  ◌++◌, ◌-◌, ◌<◌, ◌==◌, ◌||◌, ◌∙◌, ◌∷◌, ◌≡◌,
}
use go_flywheel.Base.Int.{pos}
use go_flywheel.Limiter.{
  Bucket, Caps, Grant, Hold, Limiter, LimiterDb, acquire, caps_for, grant_size, has_token, held_on,
  hold_lapsed, is_bucket, no_caps, reads_bucket, refreshed, release_grant, seed_bucket, surviving,
  take_permits,
}
use go_flywheel.Limiter.Holds.{positive}
use go_flywheel.Types.{OnOk-at, Time, add_time, ok}

-- One Release for each permit.
abbrev pub release_each : ℕ → LimiterDb → Grant → LimiterDb
release_each zero db g = db
release_each (suc k) db g = release_each k (release_grant db (record g { n = 1 })) g

-- The last of the holds after a Release of it.
abbrev rest_of : Hold → ℕ → List Hold
rest_of h m = if h.n - m == 0 then [] else (record h { n = h.n - m }) ∷ []

released_last :
    (hs : List Hold) (h : Hold) (m : ℕ)
    → any (has_token h.token) hs ≡ false
    → select
        (λ x. not (has_token h.token x && x.n == 0))
        (update_where (has_token h.token) (λ x. record x { n = x.n - m }) (hs ++ h ∷ []))
      ≡ hs ++ rest_of h m
released_last [] h m e = rw (str_eq_refl h.token) (elim (Bool-cases (h.n - m == 0)) [
  | inl z ↦ rw z (rw (str_eq_refl h.token) refl)
  | inr z ↦ rw z (rw (str_eq_refl h.token) refl)
])
released_last (x ∷ xs) h m e = rw (first (has_token h.token x) _ e) (
    rw (first (has_token h.token x) _ e)
      (ap (λ r. x ∷ r) (released_last xs h m (second (has_token h.token x) _ e))))
  where
    first : (a b : Bool) → (a || b) ≡ false → a ≡ false
    first a b k = ground arith

    second : (a b : Bool) → (a || b) ≡ false → b ≡ false
    second a b k = ground arith

release_last :
    (db : LimiterDb) (hs : List Hold) (h : Hold) (g : Grant)
    → db.holds ≡ hs ++ h ∷ []
    → any (has_token h.token) hs ≡ false
    → g.token ≡ h.token
    → str_eq h.token "" ≡ false
    → 0 < g.n
    → (release_grant db g).holds ≡ hs ++ rest_of h g.n
unfolding release_grant
release_last db hs h g e apart same named some_n =
    rw (same, named, more g.n some_n, e) (released_last hs h g.n apart)
  where
    more : (n : ℕ) → 0 < n → (n == 0) ≡ false
    more n k = ground arith

rest_of-all : (h : Hold) → rest_of h h.n ≡ []
rest_of-all h = rw (spent_up h.n) refl
  where
    spent_up : (n : ℕ) → (n - n == 0) ≡ true
    spent_up n = ground arith

rest_of-one : (h : Hold) (k : ℕ) → h.n ≡ suc (suc k) → rest_of h 1 ≡ (record h { n = suc k }) ∷ []
rest_of-one h k e = rw e (rw (one_less k) (rw (more) refl))
  where
    one_less : (m : ℕ) → suc (suc m) - 1 ≡ suc m
    one_less m = omega arith

    more : (suc k == 0) ≡ false
    more = ground arith

-- A hold of which one permit is given back at a time.
each_returned :
    (k : ℕ) (db : LimiterDb) (hs : List Hold) (h : Hold) (g : Grant)
    → db.holds ≡ hs ++ h ∷ []
    → any (has_token h.token) hs ≡ false
    → g.token ≡ h.token
    → str_eq h.token "" ≡ false
    → h.n ≡ suc k
    → (release_each (suc k) db g).holds ≡ hs
each_returned zero db hs h g e apart same named size =
    release_last db hs h (record g { n = 1 }) e apart same named (omega arith)
    ∙ (ap (λ r. hs ++ r) (rw size refl) ∙ append-nil hs)
each_returned (suc k) db hs h g e apart same named size =
    each_returned k (release_grant db (record g { n = 1 })) hs (record h { n = suc k }) g
      (release_last db hs h (record g { n = 1 }) e apart same named (omega arith)
        ∙ ap (λ r. hs ++ r) (rest_of-one h k size))
      apart same named refl

-- The hold that an Acquire records behind the holds that have not lapsed.
Recorded : String → String → Time → List Hold → LimiterDb × Grant → Type 0
Recorded token resource now holds r =
    (h : Hold) × (r.0.holds ≡ select (λ x. not (hold_lapsed resource now x)) holds ++ h ∷ [])
    × (h.token ≡ token)
    × (h.n ≡ r.1.n)
    × (r.1.token ≡ token)

unlapsed :
    (c : Caps) (resource : String) (now : Time) (holds : List Hold)
    → 0 < c.max_concurrent
    → surviving c resource now holds ≡ select (λ x. not (hold_lapsed resource now x)) holds
unfolding surviving
unlapsed c resource now holds h = rw (capped c.max_concurrent h) refl
  where
    capped : (m : ℕ) → 0 < m → ltb 0 m ≡ true
    capped m k = ground arith

take_permits-n :
    (l : Limiter) (new_id : ℕ → String) (now : Time) (db : LimiterDb) (resource : String)
    (b : Bucket) (n : ℕ)
    → let c = caps_for l b in
      (take_permits l new_id now db resource b n).1.n
      ≡ grant_size c
          (refreshed l now b).tokens
          (if ltb 0 c.max_concurrent
            then held_on resource (surviving c resource now db.holds)
            else 0)
          n
unfolding take_permits
take_permits-n l new_id now db resource b n =
    let c = caps_for l b in
    let held =
      if ltb 0 c.max_concurrent then held_on resource (surviving c resource now db.holds) else 0 in
    elim (Bool-cases
      (grant_size c (refreshed l now b).tokens held n == 0 || c.max_concurrent == 0)) [
        | inl e ↦ rw e refl
        | inr e ↦ rw e refl
      ]

take_permits-Recorded :
    (l : Limiter) (new_id : ℕ → String) (now : Time) (db : LimiterDb) (resource : String)
    (b : Bucket) (n : ℕ)
    → 0 < (caps_for l b).max_concurrent
    → 0 < (take_permits l new_id now db resource b n).1.n
    → Recorded (new_id db.minted) resource now db.holds (take_permits l new_id now db resource b n)
unfolding Recorded take_permits
take_permits-Recorded l new_id now db resource b n h some_n =
    let c = caps_for l b in
    let held =
      if ltb 0 c.max_concurrent then held_on resource (surviving c resource now db.holds) else 0 in
    let granted = grant_size c (refreshed l now b).tokens held n in
    elim (Bool-cases (granted == 0 || c.max_concurrent == 0)) [
      | inl e ↦ absurd (
          nothing granted c.max_concurrent e h
            (rw (← take_permits-n l new_id now db resource b n) some_n))
      | inr e ↦ rw e (
        hold granted,
        ap (λ s. s ++ hold granted ∷ []) (unlapsed c resource now db.holds h),
        refl,
        refl,
        refl,
      )
    ]
  where
    nothing : (g m : ℕ) → (g == 0 || m == 0) ≡ true → 0 < m → 0 < g → ⊥
    nothing g m e k t = ground arith

    hold : ℕ → Hold
    hold granted = record {
      token = new_id db.minted;
      resource = resource;
      n = granted;
      expires_at = add_time now l.hold_ttl;
    }

any-select_none :
    (q p : Hold → Bool) (hs : List Hold) → any q hs ≡ false → any q (select p hs) ≡ false
any-select_none q p [] h = refl
any-select_none q p (x ∷ xs) h = ground (arith, any-select_none q p xs)

Recorded-returned :
    (token resource : String) (now : Time) (holds : List Hold) (r : LimiterDb × Grant)
    → any (has_token token) holds ≡ false
    → str_eq token "" ≡ false
    → 0 < r.1.n
    → Recorded token resource now holds r
    → ((release_grant r.0 r.1).holds ≡ select (λ x. not (hold_lapsed resource now x)) holds)
      × ((release_each r.1.n r.0 r.1).holds ≡ select (λ x. not (hold_lapsed resource now x)) holds)
unfolding Recorded
Recorded-returned token resource now holds r unseen named some_n (h, shape, marked, size, carried) =
    let kept = select (λ x. not (hold_lapsed resource now x)) holds in
    let apart : any (has_token h.token) kept ≡ false =
      rw marked
        (any-select_none (has_token token) (λ x. not (hold_lapsed resource now x)) holds unseen) in
    let h_named : str_eq h.token "" ≡ false = rw marked named in
    (
      release_last r.0 kept h r.1 shape apart (carried ∙ sym marked) h_named some_n
          ∙ (ap (λ m. kept ++ rest_of h m) (sym size)
              ∙ (ap (λ s. kept ++ s) (rest_of-all h) ∙ append-nil kept)),
      each r.1.n refl some_n,
    )
  where
    each :
        (m : ℕ)
        → r.1.n ≡ m
        → 0 < m
        → (release_each m r.0 r.1).holds ≡ select (λ x. not (hold_lapsed resource now x)) holds
    each zero e k = absurd (omega arith)
    each (suc m) e k =
        let kept = select (λ x. not (hold_lapsed resource now x)) holds in
        each_returned m r.0 kept h r.1 shape
          (rw marked (
            any-select_none (has_token token) (λ x. not (hold_lapsed resource now x)) holds unseen))
          (carried ∙ sym marked) (rw marked named) (size ∙ e)

-- What an Acquire reserves, Release gives back. After an Acquire under a concurrency cap that grants
-- something under a token that no hold has, one Release of the grant, and just so one Release for
-- each of its permits, leaves exactly the holds that had not lapsed.
pub release_undoes_acquire :
    (l : Limiter) (new_id : ℕ → String) (now : Time) (db : LimiterDb) (resource : String) (n : ℕ)
    (b : Bucket) (r : LimiterDb × Grant)
    → reads_bucket l ≡ true
    → find (is_bucket resource) (seed_bucket l now resource db.buckets) ≡ some b
    → 0 < (caps_for l b).max_concurrent
    → any (has_token (new_id db.minted)) db.holds ≡ false
    → str_eq (new_id db.minted) "" ≡ false
    → acquire l new_id now db resource (pos (suc n)) ≡ ok r
    → 0 < r.1.n
    → ((release_grant r.0 r.1).holds ≡ select (λ x. not (hold_lapsed resource now x)) db.holds)
      × ((release_each r.1.n r.0 r.1).holds
          ≡ select (λ x. not (hold_lapsed resource now x)) db.holds)
unfolding acquire
release_undoes_acquire l new_id now db resource n b r reads found h unseen named e some_n =
    let db' : LimiterDb = record db { buckets = seed_bucket l now resource db.buckets } in
    let same : r ≡ take_permits l new_id now db' resource b (suc n) =
      OnOk-at (λ x. x ≡ take_permits l new_id now db' resource b (suc n))
        (acquire l new_id now db resource (pos (suc n))) r
        (rw (positive n, reads, found) (rw (capped (caps_for l b) h) refl)) e in
    Recorded-returned (new_id db.minted) resource now db.holds r unseen named some_n (
      subst (Recorded (new_id db.minted) resource now db.holds) (sym same) (
        take_permits-Recorded l new_id now db' resource b (suc n) h
          (subst (λ x. 0 < x.1.n) same some_n)))
  where
    capped : (c : Caps) → 0 < c.max_concurrent → no_caps c ≡ false
    capped c k = ground arith
