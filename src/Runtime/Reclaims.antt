-- ===== src/Runtime/Reclaims.antt =====
-- About sweepBatch of internal/core/driver.go: how it moves the states of jobs.
use go_flywheel.Base.{
  Bool, Bool-cases, List, [], arith, inl, inr, refl, str_mem, true, ℕ, ◌&&◌, ◌∷◌, ◌≡◌,
}
use go_flywheel.Driver.Opts.{DriverOpts}
use go_flywheel.Driver.Sweep.{
  ReclaimedJob, SweepLib, SweptJob, batch_rows, expired, is_spent, leases_before, reclaim_case,
  reclaim_discard_update, reclaim_expired, reclaim_table, reclaim_update,
}
use go_flywheel.Driver.Sweep.Batch.{end_batch, sweep_batch}
use go_flywheel.Driver.Sweep.Dialects.{reclaim_dialects_agree}
use go_flywheel.Driver.Sweep.Safe.{batch_expired, expired-running, reclaim_row}
use go_flywheel.Env.{Ctx}
use go_flywheel.Insert.Conflict.{ids_of}
use go_flywheel.Rows.{Db, Job, Run}
use go_flywheel.Runtime.Attempts.{from_running}
use go_flywheel.Runtime.Moves.{adding, moved, moved_refl, only}
use go_flywheel.Runtime.Stays.{Stays, end_batch-Stays}
use go_flywheel.Store.Evolves.{
  Effects, Evolves, Evolves-refl, Evolves-stay, Evolves-update, state_eq_same,
}
use go_flywheel.Store.Ids.{All-of-Memᴰ, OrderLaws, update_where_agree}
use go_flywheel.Store.Wf.{TableOk}
use go_flywheel.Types.{JobState, OnOk, OnOk-map, Time, ok}

reclaim_row-moved :
    (o : DriverOpts) (runs : List Run) (now : Time) (j : Job)
    → expired now j ≡ true
    → ((reclaim_row o runs now j).id ≡ j.id)
      × (moved
            (only JobState.running)
            (JobState.available ∷ JobState.discarded ∷ [])
            j.state
            (reclaim_row o runs now j).state
          ≡ true)
unfolding reclaim_row reclaim_update reclaim_discard_update
reclaim_row-moved o runs now j h =
    let to = JobState.available ∷ JobState.discarded ∷ [] in
    elim (Bool-cases (is_spent o runs j)) [
      | inl e ↦ rw e (
        refl,
        from_running to j.state JobState.discarded
            (state_eq_same j.state JobState.running (expired-running now j h)) refl,
      )
      | inr e ↦ rw e (
        refl,
        from_running to j.state JobState.available
            (state_eq_same j.state JobState.running (expired-running now j h)) refl,
      )
    ]

module _ (s : SweepLib) (laws : OrderLaws leases_before s.order) (o : DriverOpts) (now : Time) where
  reclaim-Evolves :
      (limit : ℕ) (runs : List Run) (table : List Job)
      → TableOk table
      → Evolves
          (adding (moved (only JobState.running) (JobState.available ∷ JobState.discarded ∷ [])))
          table
          (reclaim_table o runs now (batch_rows s now limit table) table)
  unfolding reclaim_case reclaim_row
  reclaim-Evolves limit runs table w =
      let ids = ids_of (batch_rows s now limit table) in
      let to = JobState.available ∷ JobState.discarded ∷ [] in
      rw (reclaim_dialects_agree s laws o runs now limit table w.unique) (
        rw
          (update_where_agree (λ j. str_mem j.id ids) (λ j. expired now j && str_mem j.id ids)
            (reclaim_row o runs now) table
            (All-of-Memᴰ _ table λ j m.
              implied (str_mem j.id ids) (expired now j)
                (batch_expired s laws o now limit table j w.unique m)))
          (Evolves-update (adding (moved (only JobState.running) to))
            (moved_refl (only JobState.running) to) (λ j. expired now j && str_mem j.id ids)
            (reclaim_row o runs now)
            (λ j h. reclaim_row-moved o runs now j (first (expired now j) _ h)) table))
    where
      implied : (a b : Bool) → (a ≡ true → b ≡ true) → a ≡ (b && a)
      implied a b k = ground arith

      first : (a b : Bool) → (a && b) ≡ true → a ≡ true
      first a b h = ground arith

  pub sweep_batch-Evolves :
      (c : Ctx) (limit : ℕ) (db : Db)
      → TableOk db.jobs
      → OnOk
          (λ r.
            Evolves
              (adding
                (moved (only JobState.running) (JobState.available ∷ JobState.discarded ∷ [])))
              db.jobs
              r.0.jobs)
          (sweep_batch s c o now limit db)
  unfolding sweep_batch reclaim_expired
  sweep_batch-Evolves c limit db w = go (reclaim_expired s o now limit db).1
    where
      table : List Job
      table = (reclaim_expired s o now limit db).0

      effect : Effects
      effect = adding (moved (only JobState.running) (JobState.available ∷ JobState.discarded ∷ []))

      go :
          (jobs : List ReclaimedJob)
          → OnOk {A = Db × List SweptJob}
              (λ r. Evolves effect db.jobs r.0.jobs)
              (elim jobs [
                | [] ↦ ok (db, [])
                | j ∷ js ↦ end_batch s c (record db { jobs = table }) (j ∷ js) now
              ])
      go [] =
          Evolves-refl effect
            (moved_refl (only JobState.running) (JobState.available ∷ JobState.discarded ∷ []))
            db.jobs
      go (j ∷ js) =
          OnOk-map (λ r. Stays table r.0.jobs) (λ r. Evolves effect db.jobs r.0.jobs)
            (end_batch s c (record db { jobs = table }) (j ∷ js) now)
            (λ r.
              Evolves-stay effect refl db.jobs table r.0.jobs
                (reclaim-Evolves limit db.runs db.jobs w))
            (end_batch-Stays s c (record db { jobs = table }) (j ∷ js) now)
