-- ===== src/Driver/Sweep/Drain.antt =====
-- About reclaimExpired of internal/core: the number of expired leases around it.
use go_flywheel.Base.{
  Bool, Bool-cases, List, Memᴰ, String, [], any, arith, count, false, inl, inr, length, refl,
  select, str_eq, str_eq_iff, str_eq_refl, str_mem, take, true, ℕ, ◌&&◌, ◌+◌, ◌<◌, ◌∙◌, ◌∷◌, ◌≡◌,
}
use go_flywheel.Driver.Opts.{DriverOpts}
use go_flywheel.Driver.Sweep.{
  SweepLib, batch_rows, expired, is_spent, leases_before, reclaim_case, reclaim_discard_update,
  reclaim_table, reclaim_update,
}
use go_flywheel.Driver.Sweep.Dialects.{reclaim_dialects_agree}
use go_flywheel.Driver.Sweep.Safe.{reclaim_row}
use go_flywheel.Insert.Conflict.{ids_of}
use go_flywheel.Rows.{Job, Run, in_scope}
use go_flywheel.Store.Counts.{any-select_back, count-agree, count-update_ends, take_short}
use go_flywheel.Store.Ids.{
  All-of-Memᴰ, OrderLaws, any-Memᴰ, any-count, any_mono, chosen_pass, count-any,
}
use go_flywheel.Store.Unique.{Unique}
use go_flywheel.Types.{Time}

reclaim_row-ends :
    (o : DriverOpts) (runs : List Run) (now : Time) (j : Job)
    → expired now (reclaim_row o runs now j) ≡ false
unfolding reclaim_row reclaim_update reclaim_discard_update expired
reclaim_row-ends o runs now j = elim (Bool-cases (is_spent o runs j)) [
  | inl e ↦ rw e (done (in_scope j))
  | inr e ↦ rw e (done (in_scope j))
]
  where
    done : (b : Bool) → (b && false && false) ≡ false
    done b = ground arith

str_mem-ids_of :
    (id : String) (js : List Job)
    → any (λ x. str_eq id x.id) js ≡ true
    → str_mem id (ids_of js) ≡ true
str_mem-ids_of id [] e = e
str_mem-ids_of id (j ∷ js) e = ground (arith, str_mem-ids_of id js)

module _ (s : SweepLib) (laws : OrderLaws leases_before s.order) (o : DriverOpts) (now : Time)
    (limit : ℕ) (table : List Job) where
  -- The expired rows are those left and those that the batch took.
  pub reclaim-count :
      (runs : List Run)
      → Unique table
      → count (expired now) (reclaim_table o runs now (batch_rows s now limit table) table)
          + count (λ j. expired now j && str_mem j.id (ids_of (batch_rows s now limit table))) table
        ≡ count (expired now) table
  unfolding reclaim_case reclaim_row
  reclaim-count runs u = rw (reclaim_dialects_agree s laws o runs now limit table u) (
      count-update_ends (expired now) (λ j. str_mem j.id (ids_of (batch_rows s now limit table)))
        (reclaim_row o runs now) (λ j _. reclaim_row-ends o runs now j) table)

  -- A batch that took a row took an expired one.
  pub took-expired :
      (x : Job) (xs : List Job)
      → batch_rows s now limit table ≡ x ∷ xs
      → 0 < count (λ j. expired now j && str_mem j.id (ids_of (batch_rows s now limit table))) table
  unfolding batch_rows
  took-expired x xs e =
      any-count (λ j. expired now j && str_mem j.id ids) table
        (any_mono (λ y. str_eq x.id y.id && expired now y) (λ j. expired now j && str_mem j.id ids)
          (λ y h. named y (str_eq x.id y.id) (expired now y) h refl) table
          (chosen_pass leases_before s.order laws (expired now) limit table x.id here))
    where
      ids : List String
      ids = ids_of (take limit (s.order (select (expired now) table)))

      here : str_mem x.id ids ≡ true
      here = rw e (rw (str_eq_refl x.id) refl)

      named :
          (y : Job) (a b : Bool)
          → (a && b) ≡ true
          → str_eq x.id y.id ≡ a
          → (b && str_mem y.id ids) ≡ true
      named y a b h k =
          rw (← (str_eq_iff x.id y.id).0 (k ∙ left a b h)) (rw (here, right a b h) refl)
        where
          left : (a b : Bool) → (a && b) ≡ true → a ≡ true
          left a b h = ground arith

          right : (a b : Bool) → (a && b) ≡ true → b ≡ true
          right a b h = ground arith

  -- A batch that took fewer rows than it may took every expired one.
  pub short_batch :
      length (batch_rows s now limit table) < limit
      → count (λ j. expired now j && str_mem j.id (ids_of (batch_rows s now limit table))) table
        ≡ count (expired now) table
  unfolding batch_rows
  short_batch h =
      count-agree _ _ table (All-of-Memᴰ _ table λ j m. every (expired now j) (taken j m))
    where
      rows : List Job
      rows = select (expired now) table

      every : {b : Bool} (a : Bool) → (a ≡ true → b ≡ true) → (a && b) ≡ a
      every a k = ground arith

      taken :
          (j : Job)
          → Memᴰ j table
          → expired now j ≡ true
          → str_mem j.id (ids_of (take limit (s.order rows))) ≡ true
      taken j m e =
          let p : Job → Bool = λ x. str_eq j.id x.id in
          rw (take_short limit (s.order rows) h) (
            str_mem-ids_of j.id (s.order rows) (
              count-any p (s.order rows) (
                rw (laws.same_rows p rows) (
                  any-count p rows (
                    any-select_back p (expired now) table (
                      any-Memᴰ (λ x. p x && expired now x) j table m
                        (rw (str_eq_refl j.id, e) refl)))))))
