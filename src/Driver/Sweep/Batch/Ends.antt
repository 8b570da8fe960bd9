-- ===== src/Driver/Sweep/Batch/Ends.antt =====
-- About sweep of internal/core/driver.go: how its loop stops, and what is left to reclaim.
use go_flywheel.Base.{
  Bool, Bool-cases, List, String, [], any, ap, arith, count, false, inl, inr, length, ltb, map,
  refl, subst, suc, sym, true, zero, ℕ, ◌&&◌, ◌+◌, ◌<◌, ◌∙◌, ◌∷◌, ◌≡◌, ◌≢◌,
}
use go_flywheel.Driver.Barrier.{clear_barrier, fire_barrier_if_complete}
use go_flywheel.Driver.Barrier.Quiet.{Idle, count-fire}
use go_flywheel.Driver.Opts.{DriverOpts, sweep_batch_size, sweep_batch_size_pos}
use go_flywheel.Driver.Sweep.{
  ReclaimedJob, SweepLib, SweptJob, batch_rows, expired, lapsed, leases_before, reclaim_expired,
  reclaim_table, reclaims_before,
}
use go_flywheel.Driver.Sweep.Batch.{
  SweepEnd, after_batch, crash_stale_stubs, drained, end_batch, fire_parents, parents_of, sweep,
  sweep_batch, sweep_loop, unfinished,
}
use go_flywheel.Driver.Sweep.Batch.Safe.{sweep_batch-TableOk}
use go_flywheel.Driver.Sweep.Drain.{reclaim-count, short_batch, took-expired}
use go_flywheel.Env.{Ctx}
use go_flywheel.Rows.{Db, Job, in_scope}
use go_flywheel.Store.Counts.{count-false, count_none}
use go_flywheel.Store.Ids.{OrderLaws}
use go_flywheel.Store.Unique.{Unique}
use go_flywheel.Store.Wf.{TableOk}
use go_flywheel.Types.{
  JobState, OnOk, OnOk-at, OnOk-bind, OnOk-map, Result, Time, err, ok, state_eq,
}

-- What the sweep relies on: ORDER BY orders the same rows, and a sort keeps their number.
pub record SweepLaws (s : SweepLib) : Type 0 where
  pub by_lease : OrderLaws leases_before s.order
  pub same_length :
      (before : Job → Job → Bool) (js : List Job) → length (s.sort_stable before js) ≡ length js

Idle-expired : (now : Time) (j : Job) → Idle j → expired now j ≡ false
unfolding expired
Idle-expired now j h =
    part (in_scope j) (state_eq j.state JobState.running) (lapsed j.leased_until now) h
  where
    part : (a b c : Bool) → b ≡ false → (a && b && c) ≡ false
    part a b c k = ground arith

cleared-expired : (now : Time) (j : Job) → expired now (clear_barrier j) ≡ expired now j
unfolding expired clear_barrier
cleared-expired now j = refl

length-map {ℓ κ} :
    {A : Type ℓ} {B : Type κ} (f : A → B) (xs : List A) → length (map f xs) ≡ length xs
length-map f [] = refl
length-map f (x ∷ xs) = rw (length-map f xs)

fire_parents-expired :
    (now : Time) (c : Ctx) (jobs : List ReclaimedJob) (db : Db) (ps : List String)
    → OnOk
        (λ d. count (expired now) d.jobs ≡ count (expired now) db.jobs)
        (fire_parents c jobs db ps)
unfolding fire_parents
fire_parents-expired now c jobs db [] = refl
fire_parents-expired now c jobs db (p ∷ ps) =
    OnOk-bind (λ d. count (expired now) d.jobs ≡ count (expired now) db.jobs)
      (fire_barrier_if_complete c db p _) _
      λ r e.
        subst (λ n. OnOk (λ d. count (expired now) d.jobs ≡ n) (fire_parents c jobs r.0 ps))
          (OnOk-at (λ x. count (expired now) x.0.jobs ≡ count (expired now) db.jobs)
            (fire_barrier_if_complete c db p _) r
            (count-fire (expired now) (Idle-expired now) (cleared-expired now) c db p _) e)
          (fire_parents-expired now c jobs r.0 ps)

end_batch-expired :
    (s : SweepLib) (c : Ctx) (db : Db) (jobs : List ReclaimedJob) (now : Time)
    → OnOk
        (λ r.
          (count (expired now) r.0.jobs ≡ count (expired now) db.jobs) × (length r.1 ≡ length jobs))
        (end_batch s c db jobs now)
unfolding end_batch crash_stale_stubs
end_batch-expired s c db jobs now =
    let db0 = (crash_stale_stubs db jobs now).0 in
    let ps = s.sort_texts (parents_of jobs) in
    OnOk-bind _ (fire_parents c jobs db0 ps) _ λ d e. (
      OnOk-at (λ x. count (expired now) x.jobs ≡ count (expired now) db.jobs)
          (fire_parents c jobs db0 ps) d (fire_parents-expired now c jobs db0 ps) e,
      length-map _ jobs,
    )

-- What a batch of at most `limit` rows does to the backlog.
abbrev Progress : Time → ℕ → Db → Db × List SweptJob → Type 0
Progress now limit db r =
    ((0 < length r.1) → count (expired now) r.0.jobs < count (expired now) db.jobs)
    × ((length r.1 < limit) → count (expired now) r.0.jobs ≡ 0)

module _ (s : SweepLib) (laws : SweepLaws s) (o : DriverOpts) (now : Time) where
  -- A batch that takes nothing finds nothing.
  empty_batch :
      (limit : ℕ) (db : Db)
      → 0 < limit
      → batch_rows s now limit db.jobs ≡ []
      → count (expired now) db.jobs ≡ 0
  empty_batch limit db h e =
      sym (short_batch s laws.by_lease o now limit db.jobs (rw e h))
      ∙ (rw e (count-false db.jobs (expired now)))

  -- A batch that takes rows leaves fewer, and none if it could have taken more.
  full_batch :
      (limit : ℕ) (db : Db) (x : Job) (xs : List Job)
      → Unique db.jobs
      → batch_rows s now limit db.jobs ≡ x ∷ xs
      → let left =
          count
            (expired now)
            (reclaim_table o db.runs now (batch_rows s now limit db.jobs) db.jobs) in
        (left < count (expired now) db.jobs)
        × (length (batch_rows s now limit db.jobs) < limit → left ≡ 0)
  full_batch limit db x xs u e = (
    omega (
      arith,
      reclaim-count s laws.by_lease o now limit db.jobs db.runs u,
      took-expired s laws.by_lease o now limit db.jobs x xs e,
    ),
    λ h. omega (
      arith,
      reclaim-count s laws.by_lease o now limit db.jobs db.runs u,
      short_batch s laws.by_lease o now limit db.jobs h,
    ),
  )

  batch-Progress :
      (c : Ctx) (limit : ℕ) (db : Db)
      → 0 < limit
      → Unique db.jobs
      → OnOk (Progress now limit db) (sweep_batch s c o now limit db)
  unfolding sweep_batch reclaim_expired
  batch-Progress c limit db h u =
      go (reclaim_expired s o now limit db).1 same (batch_rows s now limit db.jobs) refl
    where
      table : List Job
      table = (reclaim_expired s o now limit db).0

      same : length (reclaim_expired s o now limit db).1 ≡ length (batch_rows s now limit db.jobs)
      same =
          length-map _
            (s.sort_stable (reclaims_before s.text_before) (batch_rows s now limit db.jobs))
          ∙ laws.same_length _ (batch_rows s now limit db.jobs)

      go :
          (jobs : List ReclaimedJob)
          → length jobs ≡ length (batch_rows s now limit db.jobs)
          → (rows : List Job) → batch_rows s now limit db.jobs ≡ rows
          → OnOk (Progress now limit db) (elim jobs [
            | [] ↦ ok (db, [])
            | j ∷ js ↦ end_batch s c (record db { jobs = table }) (j ∷ js) now
          ])
      go [] k [] e = (λ b. absurd (omega arith), λ b. empty_batch limit db h e)
      go [] k (x ∷ xs) e = absurd (let l : 0 ≡ length (x ∷ xs) = k ∙ ap length e in omega arith)
      go (j ∷ js) k [] e = absurd (let l : suc (length js) ≡ 0 = k ∙ ap length e in omega arith)
      go (j ∷ js) k (x ∷ xs) e =
          let (fewer, none_left) = full_batch limit db x xs u e in
          OnOk-map _ (Progress now limit db)
            (end_batch s c (record db { jobs = table }) (j ∷ js) now)
            (λ r t. (λ b. rw t.0 fewer, λ b. t.0 ∙ none_left (let q = t.1 ∙ k in omega arith)))
            (end_batch-expired s c (record db { jobs = table }) (j ∷ js) now)

  -- The loop stopped by itself, and a drained table has no expired lease.
  abbrev Ended : SweepEnd → Type 0
  Ended r = (r.stop ≢ unfinished) × ((r.stop ≡ drained) → any (expired now) r.db.jobs ≡ false)

  after_batch-Ended :
      (reclaimed : ℕ) (db : Db) (next : ℕ → Db → SweepEnd) (r : Result (Db × List SweptJob))
      → OnOk (Progress now (sweep_batch_size o) db) r
      → OnOk (λ x. TableOk x.0.jobs) r
      → ((m : ℕ) (d : Db)
          → TableOk d.jobs
          → count (expired now) d.jobs < count (expired now) db.jobs
          → Ended (next m d))
      → Ended (after_batch o reclaimed db next r)
  unfolding after_batch
  after_batch-Ended reclaimed db next (err e) g w rest = (λ h. cc, λ h. cc)
  after_batch-Ended reclaimed db next (ok r) g w rest =
      elim (Bool-cases (ltb (length r.1) (sweep_batch_size o))) [
        | inl e ↦ rw e (
          λ h. cc,
          λ h.
              count_none (expired now) r.0.jobs (g.1 (shorter (length r.1) (sweep_batch_size o) e)),
        )
        | inr e ↦ rw e (
            rest (reclaimed + length r.1) r.0 w
              (g.0 (longer (length r.1) (sweep_batch_size o) e (sweep_batch_size_pos o))))
      ]
    where
      shorter : (a b : ℕ) → ltb a b ≡ true → a < b
      shorter a b h = ground arith

      longer : (a b : ℕ) → ltb a b ≡ false → 0 < b → 0 < a
      longer a b h k = ground arith

  loop-Ended :
      (c : Ctx) (cancelled : ℕ → Bool) (fuel n reclaimed : ℕ) (db : Db)
      → TableOk db.jobs
      → count (expired now) db.jobs < fuel
      → Ended (sweep_loop s c o now cancelled fuel n reclaimed db)
  unfolding sweep_loop
  loop-Ended c cancelled zero n reclaimed db w h = absurd (omega arith)
  loop-Ended c cancelled (suc fuel) n reclaimed db w h = elim (Bool-cases (cancelled n)) [
    | inl e ↦ rw e (λ k. cc, λ k. cc)
    | inr e ↦ rw e (
        after_batch-Ended reclaimed db _ (sweep_batch s c o now (sweep_batch_size o) db)
          (batch-Progress c (sweep_batch_size o) db (sweep_batch_size_pos o) w.unique)
          (sweep_batch-TableOk s laws.by_lease o now c (sweep_batch_size o) db w)
          (λ m d v l. loop-Ended c cancelled fuel (suc n) m d v (omega arith)))
  ]

  -- On a well-formed table a sweep never runs out of fuel: it is drained, it is interrupted between
  -- batches, or a batch of it fails.
  pub sweep_ends :
      (c : Ctx) (cancelled : ℕ → Bool) (db : Db)
      → TableOk db.jobs
      → (sweep s c o now cancelled db).stop ≢ unfinished
  unfolding sweep
  sweep_ends c cancelled db w = (loop-Ended c cancelled _ 0 0 db w (omega arith)).0

  -- When a sweep of a well-formed table reports its backlog drained, no row of the table it leaves
  -- holds a lease that expired before the instant it swept at.
  pub sweep_drains :
      (c : Ctx) (cancelled : ℕ → Bool) (db : Db)
      → TableOk db.jobs
      → (sweep s c o now cancelled db).stop ≡ drained
      → any (expired now) (sweep s c o now cancelled db).db.jobs ≡ false
  unfolding sweep
  sweep_drains c cancelled db w = (loop-Ended c cancelled _ 0 0 db w (omega arith)).1
