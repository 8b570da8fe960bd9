-- ===== src/Driver/Sweep/Batch/Safe.antt =====
-- About sweepBatch and sweep of internal/core/driver.go: the jobs table they leave.
use go_flywheel.Base.{
  Bool, Bool-cases, List, String, [], inl, inr, length, ltb, suc, zero, ℕ, ◌+◌, ◌∷◌,
}
use go_flywheel.Driver.Barrier.{fire_barrier_if_complete}
use go_flywheel.Driver.Barrier.Fires.{fire-TableOk}
use go_flywheel.Driver.Opts.{DriverOpts, sweep_batch_size}
use go_flywheel.Driver.Sweep.{ReclaimedJob, SweepLib, SweptJob, leases_before, reclaim_expired}
use go_flywheel.Driver.Sweep.Batch.{
  SweepEnd, after_batch, crash_stale_stubs, end_batch, fire_parents, parents_of, sweep, sweep_batch,
  sweep_loop,
}
use go_flywheel.Driver.Sweep.Safe.{reclaim-TableOk}
use go_flywheel.Env.{Ctx}
use go_flywheel.Rows.{Db, Job}
use go_flywheel.Store.Ids.{OrderLaws}
use go_flywheel.Store.Wf.{TableOk}
use go_flywheel.Types.{OnOk, OnOk-at, OnOk-bind, Result, Time, err, ok}

fire_parents-TableOk :
    (c : Ctx) (jobs : List ReclaimedJob) (db : Db) (ps : List String)
    → TableOk db.jobs
    → OnOk (λ d. TableOk d.jobs) (fire_parents c jobs db ps)
unfolding fire_parents
fire_parents-TableOk c jobs db [] w = w
fire_parents-TableOk c jobs db (p ∷ ps) w =
    OnOk-bind (λ d. TableOk d.jobs) (fire_barrier_if_complete c db p _) _
      λ r e. fire_parents-TableOk c jobs r.0 ps (
        OnOk-at (λ x. TableOk x.0.jobs) (fire_barrier_if_complete c db p _) r
          (fire-TableOk c db p _ w) e)

end_batch-TableOk :
    (s : SweepLib) (c : Ctx) (db : Db) (jobs : List ReclaimedJob) (now : Time)
    → TableOk db.jobs
    → OnOk (λ r. TableOk r.0.jobs) (end_batch s c db jobs now)
unfolding end_batch crash_stale_stubs
end_batch-TableOk s c db jobs now w =
    OnOk-bind (λ r. TableOk r.0.jobs)
      (fire_parents c jobs (crash_stale_stubs db jobs now).0 (s.sort_texts (parents_of jobs))) _
      λ d e.
        OnOk-at (λ x. TableOk x.jobs)
          (fire_parents c jobs (crash_stale_stubs db jobs now).0 (s.sort_texts (parents_of jobs))) d
          (fire_parents-TableOk c jobs (crash_stale_stubs db jobs now).0
            (s.sort_texts (parents_of jobs)) w)
          e

module _ (s : SweepLib) (laws : OrderLaws leases_before s.order) (o : DriverOpts) (now : Time) where
  pub sweep_batch-TableOk :
      (c : Ctx) (limit : ℕ) (db : Db)
      → TableOk db.jobs
      → OnOk (λ r. TableOk r.0.jobs) (sweep_batch s c o now limit db)
  unfolding sweep_batch reclaim_expired
  sweep_batch-TableOk c limit db w = go (reclaim_expired s o now limit db).1
    where
      table : List Job
      table = (reclaim_expired s o now limit db).0

      go :
          (jobs : List ReclaimedJob)
          → OnOk {A = Db × List SweptJob}
              (λ r. TableOk r.0.jobs)
              (elim jobs [
                | [] ↦ ok (db, [])
                | j ∷ js ↦ end_batch s c (record db { jobs = table }) (j ∷ js) now
              ])
      go [] = w
      go (j ∷ js) =
          end_batch-TableOk s c (record db { jobs = table }) (j ∷ js) now
            (reclaim-TableOk s laws o now limit db.runs db.jobs w)

  after_batch-TableOk :
      (reclaimed : ℕ) (db : Db) (next : ℕ → Db → SweepEnd) (r : Result (Db × List SweptJob))
      → ((m : ℕ) (d : Db) → TableOk d.jobs → TableOk (next m d).db.jobs)
      → TableOk db.jobs
      → OnOk (λ x. TableOk x.0.jobs) r
      → TableOk (after_batch o reclaimed db next r).db.jobs
  unfolding after_batch
  after_batch-TableOk reclaimed db next (err e) rest w v = w
  after_batch-TableOk reclaimed db next (ok r) rest w v =
      elim (Bool-cases (ltb (length r.1) (sweep_batch_size o))) [
        | inl e ↦ rw e v
        | inr e ↦ rw e (rest (reclaimed + length r.1) r.0 v)
      ]

  loop-TableOk :
      (c : Ctx) (cancelled : ℕ → Bool) (fuel n reclaimed : ℕ) (db : Db)
      → TableOk db.jobs
      → TableOk (sweep_loop s c o now cancelled fuel n reclaimed db).db.jobs
  unfolding sweep_loop
  loop-TableOk c cancelled zero n reclaimed db w = w
  loop-TableOk c cancelled (suc fuel) n reclaimed db w = elim (Bool-cases (cancelled n)) [
    | inl e ↦ rw e w
    | inr e ↦ rw e (
        after_batch-TableOk reclaimed db _ (sweep_batch s c o now (sweep_batch_size o) db)
          (λ m d v. loop-TableOk c cancelled fuel (suc n) m d v) w
          (sweep_batch-TableOk c (sweep_batch_size o) db w))
  ]

  -- However a sweep of a well-formed table ends (drained, interrupted between batches, or failed in
  -- one), and whatever batches it committed, it leaves the jobs table well formed.
  pub sweep-TableOk :
      (c : Ctx) (cancelled : ℕ → Bool) (db : Db)
      → TableOk db.jobs
      → TableOk (sweep s c o now cancelled db).db.jobs
  unfolding sweep
  sweep-TableOk c cancelled db w = loop-TableOk c cancelled _ 0 0 db w
