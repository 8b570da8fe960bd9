-- ===== src/Driver/Sweep/Dialects.antt =====
-- About reclaimExpired of driver_sqlite.go and of driver_postgres.go, side by side.
use go_flywheel.Base.{
  Bool, Bool-cases, List, String, arith, false, false≢true, if◌then◌else◌, inl, inr, not, refl,
  select, str_mem, sym, take, true, ℕ, ◌&&◌, ◌||◌, ◌∙◌, ◌≡◌,
}
use go_flywheel.Driver.Opts.{DriverOpts}
use go_flywheel.Driver.Sweep.{
  SweepLib, batch_rows, expired, is_spent, lapsed, leases_before, reclaim_case,
  reclaim_discard_update, reclaim_table, reclaim_update,
}
use go_flywheel.Insert.Conflict.{ids_of}
use go_flywheel.Rows.{Job, Run, in_scope}
use go_flywheel.Store.Ids.{
  All-of-Memᴰ, OrderLaws, chosen_part_pass, id_names_one, ids_of-split, update_twice_agree,
}
use go_flywheel.Store.Unique.{Unique}
use go_flywheel.Types.{JobState, Time, state_eq}

spent_and_expired : (a b : Bool) → (a && b) ≡ true → (a ≡ true) × (b ≡ true)
spent_and_expired a b h = (ground arith, ground arith)

expired-in_scope : (now : Time) (j : Job) → expired now j ≡ true → in_scope j ≡ true
unfolding expired
expired-in_scope now j h =
    part (in_scope j) (state_eq j.state JobState.running) (lapsed j.leased_until now) h
  where
    part : (a b c : Bool) → (a && b && c) ≡ true → a ≡ true
    part a b c k = ground arith

and_false : (b : Bool) → (b && false) ≡ false
and_false b = ground arith

row_agrees :
    (o : DriverOpts) (runs : List Run) (now : Time) (rest dead ids : List String) (j : Job)
    → (str_mem j.id dead ≡ true → (is_spent o runs j && expired now j) ≡ true)
    → (str_mem j.id rest ≡ true → (not (is_spent o runs j) && expired now j) ≡ true)
    → str_mem j.id ids ≡ (str_mem j.id dead || str_mem j.id rest)
    → (let k = if in_scope j && str_mem j.id dead then reclaim_discard_update now j else j in
        if in_scope k && str_mem k.id rest then reclaim_update now k else k)
      ≡ (if str_mem j.id ids
          then (if is_spent o runs j then reclaim_discard_update now j else reclaim_update now j)
          else j)
unfolding reclaim_update reclaim_discard_update
row_agrees o runs now rest dead ids j d a e = elim (Bool-cases (str_mem j.id dead)) [
  | inl x ↦
      let (sp, ex) = spent_and_expired _ _ (d x) in
      rw (e, x, sp, expired-in_scope now j ex, spared sp) (rw (and_false (in_scope j)) refl)
  | inr x ↦ elim (Bool-cases (str_mem j.id rest)) [
    | inl y ↦
        let (sp, ex) = spent_and_expired _ _ (a y) in
        rw (e, x, y, not_true (is_spent o runs j) sp, expired-in_scope now j ex)
          (rw (expired-in_scope now j ex, y) refl)
    | inr y ↦ rw (e, x, y) (rw (and_false (in_scope j)) (rw (y, and_false (in_scope j)) refl))
  ]
]
  where
    not_true : (b : Bool) → not b ≡ true → b ≡ false
    not_true b h = ground arith

    spared : is_spent o runs j ≡ true → str_mem j.id rest ≡ false
    spared sp = elim (Bool-cases (str_mem j.id rest)) [
      | inl y ↦ absurd (false≢true (sym (not_true _ (spent_and_expired _ _ (a y)).0) ∙ sp))
      | inr y ↦ y
    ]

module _ (s : SweepLib) (laws : OrderLaws leases_before s.order) (o : DriverOpts) (runs : List Run)
    (now : Time) (limit : ℕ) (table : List Job) where
  -- On a table whose unique indexes hold, SQLite's two updates by id, one for the jobs to discard
  -- and one for the jobs to make available, do what PostgreSQL's single update with a CASE does.
  pub reclaim_dialects_agree :
      Unique table
      → reclaim_table o runs now (batch_rows s now limit table) table
        ≡ reclaim_case o runs now (batch_rows s now limit table) table
  unfolding reclaim_table reclaim_case batch_rows
  reclaim_dialects_agree u =
      update_twice_agree
        (λ x. in_scope x && str_mem x.id (ids_of (select (λ y. not (is_spent o runs y)) rows)))
        (λ x. in_scope x && str_mem x.id (ids_of (select (is_spent o runs) rows)))
        (λ x. str_mem x.id (ids_of rows)) (reclaim_update now) (reclaim_discard_update now)
        (λ x. if is_spent o runs x then reclaim_discard_update now x else reclaim_update now x)
        table
        (All-of-Memᴰ _ table λ j m.
          row_agrees o runs now (ids_of (select (λ x. not (is_spent o runs x)) rows))
            (ids_of (select (is_spent o runs) rows)) (ids_of rows) j
            (λ e.
              id_names_one (λ x. is_spent o runs x && expired now x) table j u m
                (chosen_part_pass leases_before s.order laws (expired now) (is_spent o runs) limit
                  table j.id e))
            (λ e.
              id_names_one (λ x. not (is_spent o runs x) && expired now x) table j u m
                (chosen_part_pass leases_before s.order laws (expired now)
                  (λ x. not (is_spent o runs x)) limit table j.id e))
            (ids_of-split (is_spent o runs) j.id rows))
    where
      rows : List Job
      rows = take limit (s.order (select (expired now) table))
