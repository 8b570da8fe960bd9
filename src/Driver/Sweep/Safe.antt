-- ===== src/Driver/Sweep/Safe.antt =====
-- About reclaimExpired of internal/core: the rows that it updates.
use go_flywheel.Base.{
  Bool, Bool-cases, List, Memᴰ, arith, false, if◌then◌else◌, inl, inr, refl, str_mem, sym, true, ℕ,
  ◌&&◌, ◌∙◌, ◌≡◌,
}
use go_flywheel.Driver.Opts.{DriverOpts}
use go_flywheel.Driver.Sweep.{
  SweepLib, batch_rows, expired, is_spent, lapsed, leases_before, reclaim_case,
  reclaim_discard_update, reclaim_table, reclaim_update,
}
use go_flywheel.Driver.Sweep.Dialects.{reclaim_dialects_agree}
use go_flywheel.Insert.Conflict.{ids_of}
use go_flywheel.Rows.{Job, Run, in_scope}
use go_flywheel.Store.Ids.{All-of-Memᴰ, OrderLaws, chosen_pass, id_names_one, update_where_agree}
use go_flywheel.Store.Unique.{Tame, Unique}
use go_flywheel.Store.Wf.{RowOk, TableOk, update_where-TableOk}
use go_flywheel.Types.{JobState, Time, is_terminal, state_eq}

pub expired-running :
    (now : Time) (j : Job) → expired now j ≡ true → state_eq j.state JobState.running ≡ true
unfolding expired
expired-running now j h =
    part (in_scope j) (state_eq j.state JobState.running) (lapsed j.leased_until now) h
  where
    part : (a b c : Bool) → (a && b && c) ≡ true → b ≡ true
    part a b c k = ground arith

running_live : (s : JobState) → state_eq s JobState.running ≡ true → is_terminal s ≡ false
running_live s h = ground arith

still_live :
    (s : JobState)
    → state_eq s JobState.running ≡ true
    → elim (is_terminal s) [ true ↦ false | false ↦ true ] ≡ true
still_live s h = ground arith

unfoldable pub reclaim_row : DriverOpts → List Run → Time → Job → Job
reclaim_row o runs now j =
    if is_spent o runs j then reclaim_discard_update now j else reclaim_update now j

reclaim_row-RowOk :
    (o : DriverOpts) (runs : List Run) (now : Time) (j : Job)
    → expired now j ≡ true
    → RowOk j
    → RowOk (reclaim_row o runs now j)
unfolding reclaim_row reclaim_update reclaim_discard_update
reclaim_row-RowOk o runs now j h w = elim (Bool-cases (is_spent o runs j)) [
  | inl e ↦ rw e (record {
    leased = refl;
    lease_ends = refl;
    finalized = refl;
    barrier_whole = w.barrier_whole;
  })
  | inr e ↦ rw e (record {
    leased = refl;
    lease_ends = refl;
    finalized = sym (running_live j.state (expired-running now j h)) ∙ w.finalized;
    barrier_whole = w.barrier_whole;
  })
]

reclaim_row-Tame :
    (o : DriverOpts) (runs : List Run) (now : Time) (j : Job)
    → expired now j ≡ true
    → Tame j (reclaim_row o runs now j)
unfolding reclaim_row reclaim_update reclaim_discard_update
reclaim_row-Tame o runs now j h = elim (Bool-cases (is_spent o runs j)) [
  | inl e ↦ rw e (record {
    same_id = refl;
    same_key = refl;
    same_active_key = refl;
    live_before = λ _. still_live j.state (expired-running now j h);
  })
  | inr e ↦ rw e (record {
    same_id = refl;
    same_key = refl;
    same_active_key = refl;
    live_before = λ _. still_live j.state (expired-running now j h);
  })
]

module _ (s : SweepLib) (laws : OrderLaws leases_before s.order) (o : DriverOpts) (now : Time) where
  -- Under the unique indexes, the ids of a batch are ids of expired rows only.
  pub batch_expired :
      (limit : ℕ) (table : List Job) (j : Job)
      → Unique table
      → Memᴰ j table
      → str_mem j.id (ids_of (batch_rows s now limit table)) ≡ true
      → expired now j ≡ true
  unfolding batch_rows
  batch_expired limit table j u m e =
      id_names_one (expired now) table j u m
        (chosen_pass leases_before s.order laws (expired now) limit table j.id e)

  pub reclaim-TableOk :
      (limit : ℕ) (runs : List Run) (table : List Job)
      → TableOk table
      → TableOk (reclaim_table o runs now (batch_rows s now limit table) table)
  unfolding reclaim_case reclaim_row
  reclaim-TableOk limit runs table w =
      let ids = ids_of (batch_rows s now limit table) in
      rw (reclaim_dialects_agree s laws o runs now limit table w.unique) (
        rw
          (update_where_agree (λ j. str_mem j.id ids) (λ j. expired now j && str_mem j.id ids)
            (reclaim_row o runs now) table
            (All-of-Memᴰ _ table λ j m.
              implied (str_mem j.id ids) (expired now j) (batch_expired limit table j w.unique m)))
          (update_where-TableOk (λ j. expired now j && str_mem j.id ids) (reclaim_row o runs now)
            (λ j h. reclaim_row-RowOk o runs now j (first (expired now j) _ h))
            (λ j h. reclaim_row-Tame o runs now j (first (expired now j) _ h)) table w))
    where
      implied : (a b : Bool) → (a ≡ true → b ≡ true) → a ≡ (b && a)
      implied a b k = ground arith

      first : (a b : Bool) → (a && b) ≡ true → a ≡ true
      first a b h = ground arith
