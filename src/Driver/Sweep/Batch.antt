-- ===== src/Driver/Sweep/Batch.antt =====
-- What a batch does after its reclaim: the crashed stubs, the barriers of the discarded jobs'
-- parents, and the loop over batches. internal/core/driver.go.
pub mod Safe
pub mod Ends
use go_flywheel.Base.{
  Bool, List, Option, String, [], count, false, find, if◌then◌else◌, is_some, length, ltb, map,
  none, opt_str_eq, select, some, str_eq, str_mem, suc, true, update_where, zero, ℕ, ◌+◌, ◌==◌, ◌∷◌,
}
use go_flywheel.Driver.Barrier.{fire_barrier_if_complete}
use go_flywheel.Driver.Finalize.{log_finishes}
use go_flywheel.Driver.Opts.{DriverOpts, sweep_batch_size}
use go_flywheel.Driver.Sweep.{ReclaimedJob, SweepLib, SweptJob, expired, reclaim_expired}
use go_flywheel.Env.{Ctx}
use go_flywheel.Rows.{Db, Run}
use go_flywheel.Types.{Error, JobState, Result, RunOutcome, Time, err, ok, state_eq, ◌>>=◌, ◌>>◌}

-- crashStaleStubsSQLite: the state of the reclaimed attempt that a started stub belongs to. Ids of
-- reclaimed jobs differ, so that `byID` holds the one found.
pub stub_state : List ReclaimedJob → Run → Option JobState
stub_state jobs r =
    if is_started r.outcome
    then elim (find (λ j. str_eq j.id r.job_id) jobs) [
      | none ↦ none
      | some j ↦ if r.attempt == j.attempt then some j.state else none
    ]
    else none
  where
    is_started : RunOutcome → Bool
    is_started RunOutcome.started = true
    is_started _ = false

abbrev has_state : JobState → Option JobState → Bool
has_state s none = false
has_state s (some t) = state_eq s t

pub crash_stub : Time → JobState → Run → Run
crash_stub now state r = record r {
  outcome = RunOutcome.crashed;
  finished_at = some now;
  job_state = some state;
}

abbrev pub run_ids : List Run → List String
run_ids = map (λ r. r.id)

-- The update of the stubs of one state, by run id.
pub crash_group : Time → List ReclaimedJob → List Run → JobState → List Run → List Run
unfolding stub_state crash_stub
crash_group now jobs found state runs =
    let group = run_ids (select (λ r. has_state state (stub_state jobs r)) found) in
    update_where (λ r. str_mem r.id group) (crash_stub now state) runs

-- crashStaleStubs, which returns the stubs it crashed.
unfoldable pub crash_stale_stubs : Db → List ReclaimedJob → Time → Db × List Run
unfolding stub_state crash_group
crash_stale_stubs db jobs now =
    let stubs = select (λ r. is_some (stub_state jobs r)) db.runs in
    let runs =
      crash_group now jobs db.runs JobState.discarded
        (crash_group now jobs db.runs JobState.available db.runs) in
    (
      record db {
        runs = runs;
        finishes = log_finishes db.finishes (select (λ r. str_mem r.id (run_ids stubs)) runs);
      },
      stubs,
    )

-- `runs[j.ID]`: the last stub of the job.
pub run_of : List Run → String → String
run_of [] id = ""
run_of (r ∷ rs) id =
    let later = run_of rs id in
    if str_eq later "" then (if str_eq r.job_id id then r.id else "") else later

abbrev discarded_parent : ReclaimedJob → Option String
discarded_parent j = if state_eq j.state JobState.discarded then j.parent_job_id else none

-- The keys of `lastDiscarded`, and its value at one.
pub parents_of : List ReclaimedJob → List String
parents_of [] = []
parents_of (j ∷ js) =
    let rest = parents_of js in
    elim (discarded_parent j) [ none ↦ rest | some p ↦ if str_mem p rest then rest else p ∷ rest ]

pub last_discarded : List ReclaimedJob → String → Option String
last_discarded [] parent_id = none
last_discarded (j ∷ js) parent_id =
    let later = last_discarded js parent_id in
    elim later [
      | some id ↦ some id
      | none ↦ if opt_str_eq (discarded_parent j) (some parent_id) then some j.id else none
    ]

abbrev or_empty : Option String → String
or_empty none = ""
or_empty (some s) = s

unfoldable pub fire_parents : Ctx → List ReclaimedJob → Db → List String → Result Db
unfolding last_discarded
fire_parents c jobs db [] = ok db
fire_parents c jobs db (p ∷ ps) = do
  (db', fired) ← fire_barrier_if_complete c db p (or_empty (last_discarded jobs p))
  fire_parents c jobs db' ps

pub swept_of : List Run → ReclaimedJob → SweptJob
unfolding run_of
swept_of stubs j = record {
  id = j.id;
  run_id = run_of stubs j.id;
  kind = j.kind;
  queue = j.queue;
  attempt = j.attempt;
  max_attempts = j.max_attempts;
  state = j.state;
}

-- fireDiscardedParentsBarriers over the batch, then the report of the batch.
unfoldable pub end_batch :
    SweepLib → Ctx → Db → List ReclaimedJob → Time → Result (Db × List SweptJob)
unfolding crash_stale_stubs parents_of fire_parents swept_of
end_batch s c db jobs now = do
  let (db0, stubs) = crash_stale_stubs db jobs now
  db' ← fire_parents c jobs db0 (s.sort_texts (parents_of jobs))
  ok (db', map (swept_of stubs) jobs)

unfoldable pub sweep_batch :
    SweepLib → Ctx → DriverOpts → Time → ℕ → Db → Result (Db × List SweptJob)
unfolding end_batch
sweep_batch s c o now limit db =
    let (table, jobs) = reclaim_expired s o now limit db in
    elim jobs [
      | [] ↦ ok (db, [])
      | j ∷ js ↦ end_batch s c (record db { jobs = table }) (j ∷ js) now
    ]

-- How a sweep ends: the batches it committed stay, whatever stops it.
pub data SweepStop : Type 0 where
  drained : SweepStop
  interrupted : SweepStop
  failed : Error → SweepStop
  unfinished : SweepStop

pub record SweepEnd : Type 0 where
  pub db : Db
  pub reclaimed : ℕ
  pub stop : SweepStop

-- After a batch: a failed one was rolled back, and a short one says that the backlog is drained.
unfoldable pub after_batch :
    DriverOpts → ℕ → Db → (ℕ → Db → SweepEnd) → Result (Db × List SweptJob) → SweepEnd
after_batch o reclaimed db next (err e) = record { db = db; reclaimed = reclaimed; stop = failed e }
after_batch o reclaimed db next (ok r) =
    if ltb (length r.1) (sweep_batch_size o)
    then record { db = r.0; reclaimed = reclaimed + length r.1; stop = drained }
    else next (reclaimed + length r.1) r.0

-- The loop, on fuel, where `cancelled n` is whether the context is done before batch n.
unfoldable pub sweep_loop :
    SweepLib → Ctx → DriverOpts → Time → (ℕ → Bool) → ℕ → ℕ → ℕ → Db → SweepEnd
sweep_loop s c o now cancelled zero n reclaimed db = record {
  db = db;
  reclaimed = reclaimed;
  stop = unfinished;
}
sweep_loop s c o now cancelled (suc fuel) n reclaimed db =
    if cancelled n
    then record { db = db; reclaimed = reclaimed; stop = interrupted }
    else after_batch o reclaimed db (λ m d. sweep_loop s c o now cancelled fuel (suc n) m d)
        (sweep_batch s c o now (sweep_batch_size o) db)

-- sweep, with fuel for one batch for each expired row and one more.
unfoldable pub sweep : SweepLib → Ctx → DriverOpts → Time → (ℕ → Bool) → Db → SweepEnd
sweep s c o now cancelled db =
    sweep_loop s c o now cancelled (suc (count (expired now) db.jobs)) 0 0 db
