-- ===== src/Driver/Sweep.antt =====
-- The lease sweep of internal/core/driver.go, with the reclaim of driver_sqlite.go: reclaimExpired,
-- crashStaleStubs, fireDiscardedParentsBarriers, sweepBatch and sweep.
pub mod Batch
pub mod Dialects
pub mod Safe
pub mod Drain
use go_flywheel.Base.{
  Bool, List, Option, String, count, false, if◌then◌else◌, is_some, leb, ltb, map, none, not,
  select, some, str_eq, str_mem, take, true, update_where, ℕ, ◌&&◌, ◌+◌, ◌==◌, ◌||◌,
}
use go_flywheel.Base.Int.{leb_ℤ, ltb_ℤ, pos, ℤ}
use go_flywheel.Driver.Opts.{DriverOpts}
use go_flywheel.Insert.Conflict.{ids_of}
use go_flywheel.Rows.{Db, Job, Run, in_scope}
use go_flywheel.Types.{JobState, RunOutcome, Time, available, state_eq}

-- What the sweep takes from the database and from Go's libraries: ORDER BY leased_until,
-- slices.SortStableFunc, strings.Compare as "comes before", and slices.Sorted.
pub record SweepLib : Type 0 where
  pub order : List Job → List Job
  pub sort_stable : (Job → Job → Bool) → List Job → List Job
  pub text_before : String → String → Bool
  pub sort_texts : List String → List String

pub record ReclaimedJob : Type 0 where
  pub id : String
  pub state : JobState
  pub kind : String
  pub queue : String
  pub attempt : ℕ
  pub max_attempts : ℤ
  pub parent_job_id : Option String

-- A swept job, with the run of its crashed attempt ("" for none).
pub record SweptJob : Type 0 where
  pub id : String
  pub run_id : String
  pub kind : String
  pub queue : String
  pub attempt : ℕ
  pub max_attempts : ℤ
  pub state : JobState

abbrev pub spent_attempts : ℕ → ℤ → Bool
spent_attempts attempt max_attempts = leb_ℤ max_attempts (pos attempt)

abbrev pub crash_budget_spent : ℕ → ℤ → Bool
crash_budget_spent earlier_crashes max_crashes =
    ltb_ℤ (pos 0) max_crashes && leb_ℤ max_crashes (pos (1 + earlier_crashes))

-- crashedRunCondition
pub crashed_run : Run → Bool
crashed_run r = is_crashed r.outcome || r.superseded && is_some r.job_state
  where
    is_crashed : RunOutcome → Bool
    is_crashed RunOutcome.crashed = true
    is_crashed _ = false

-- earlierCrashes, for one job: none are read when crashes have no budget.
pub earlier_crashes : ℤ → List Run → String → ℕ
unfolding crashed_run
earlier_crashes max_crashes runs id =
    if ltb_ℤ (pos 0) max_crashes then count (λ r. str_eq r.job_id id && crashed_run r) runs else 0

-- `leased_until < now`, which no NULL satisfies.
abbrev pub lapsed : Option Time → Time → Bool
lapsed none now = false
lapsed (some t) now = ltb t now

unfoldable pub expired : Time → Job → Bool
expired now j = in_scope j && state_eq j.state JobState.running && lapsed j.leased_until now

-- The job whose reclaim discards it.
pub is_spent : DriverOpts → List Run → Job → Bool
unfolding earlier_crashes
is_spent o runs j =
    spent_attempts j.attempt j.max_attempts
    || crash_budget_spent (earlier_crashes o.max_crashes runs j.id) o.max_crashes

unfoldable pub reclaim_update : Time → Job → Job
reclaim_update now j = record j {
  state = JobState.available;
  leased_until = none;
  lease_token = none;
  updated_at = now;
}

unfoldable pub reclaim_discard_update : Time → Job → Job
unfolding reclaim_update
reclaim_discard_update now j = record (reclaim_update now j) {
  state = JobState.discarded;
  finalized_at = some now;
}

-- A row that was read has a lease.
abbrev lease_of : Job → Time
lease_of j = elim j.leased_until [ none ↦ 0 | some t ↦ t ]

-- Where a row stands in ORDER BY leased_until.
unfoldable pub leases_before : Job → Job → Bool
leases_before a b = leb (lease_of a) (lease_of b)

-- inReclaimOrder: the comparison of its sort.
pub reclaims_before : (String → String → Bool) → Job → Job → Bool
reclaims_before text_before a b =
    ltb (lease_of a) (lease_of b) || lease_of a == lease_of b && text_before a.id b.id

pub reclaimed_of : DriverOpts → List Run → Job → ReclaimedJob
unfolding is_spent
reclaimed_of o runs j = record {
  id = j.id;
  state = if is_spent o runs j then JobState.discarded else JobState.available;
  kind = j.kind;
  queue = j.queue;
  attempt = j.attempt;
  max_attempts = j.max_attempts;
  parent_job_id = j.parent_job_id;
}

-- The expired rows that one batch takes.
unfoldable pub batch_rows : SweepLib → Time → ℕ → List Job → List Job
unfolding expired
batch_rows s now limit table = take limit (s.order (select (expired now) table))

-- The two updates of a batch, by the ids of its groups.
unfoldable pub reclaim_table : DriverOpts → List Run → Time → List Job → List Job → List Job
unfolding is_spent
reclaim_table o runs now rows table =
    let discard = ids_of (select (is_spent o runs) rows) in
    let available = ids_of (select (λ j. not (is_spent o runs j)) rows) in
    update_where (λ j. in_scope j && str_mem j.id available) (reclaim_update now)
      (update_where (λ j. in_scope j && str_mem j.id discard) (reclaim_discard_update now) table)

-- The SQLite driver's reclaimExpired: the jobs table after it, and what it took.
unfoldable pub reclaim_expired :
    SweepLib → DriverOpts → Time → ℕ → Db → List Job × List ReclaimedJob
unfolding reclaims_before reclaimed_of
reclaim_expired s o now limit db =
    let rows = batch_rows s now limit db.jobs in
    (
      reclaim_table o db.runs now rows db.jobs,
      map (reclaimed_of o db.runs) (s.sort_stable (reclaims_before s.text_before) rows),
    )

-- The PostgreSQL driver's one statement over the same rows: the state by CASE, `WHERE jobs.id =
-- expired.id`, in no soft-delete scope.
unfoldable pub reclaim_case : DriverOpts → List Run → Time → List Job → List Job → List Job
unfolding is_spent reclaim_update reclaim_discard_update
reclaim_case o runs now rows table =
    update_where (λ j. str_mem j.id (ids_of rows))
      (λ j. if is_spent o runs j then reclaim_discard_update now j else reclaim_update now j) table
