-- ===== src/Examples/Runs.antt =====
-- The theorems at concrete inputs.
use go_flywheel.Base.{
  All, [], any, count, false, is_some, length, min, none, refl, some, str_eq, take, true, ℕ, ◌<◌,
  ◌↔◌, ◌∷◌, ◌≡◌, ◌≢◌, ◌≤◌, ◌⊎◌,
}
use go_flywheel.Base.Int.{pos, ◌≤ℤ◌}
use go_flywheel.Driver.Barrier.{fire_barrier_if_complete}
use go_flywheel.Driver.Barrier.Fires.{fire_keeps_table}
use go_flywheel.Driver.Barrier.Once.{fires_once}
use go_flywheel.Driver.Claim.{claims_before, dequeue, eligible, raw_from_row}
use go_flywheel.Driver.Claim.Exclusive.{claims_exclude}
use go_flywheel.Driver.Claim.Held.{dequeue_holds}
use go_flywheel.Driver.Claim.Progress.{dequeue_hands_out}
use go_flywheel.Driver.Finalize.{FinalizeOutcome, finalize, holds_claim, state_of}
use go_flywheel.Driver.Finalize.Fence.{superseded_finalize_keeps_jobs}
use go_flywheel.Driver.Finalize.Safe.{finalize_keeps_table}
use go_flywheel.Driver.FollowUps.{chunks, insert_follow_ups}
use go_flywheel.Driver.FollowUps.Chunks.{chunks_cover, flatten, follow_ups_keep_table}
use go_flywheel.Driver.Opts.{follow_up_chunk_size}
use go_flywheel.Examples.Data.{
  child_raw, child_row, child_run, child_spec, context, done, ended_family, ended_family-TableOk,
  failure, family, family-TableOk, options, parent_row, plain_lib, request, spawning,
}
use go_flywheel.Examples.Sort.{claim_order-OrderLaws, sort_rows}
use go_flywheel.Plan.{plan_finalize}
use go_flywheel.Plan.Cases.{RetryDelay, effective_class, failure_discards_or_retries, plan_shape}
use go_flywheel.Rows.{Db}
use go_flywheel.Store.Wf.{TableOk}
use go_flywheel.Text.{byte_at, rune_start, truncate}
use go_flywheel.Text.Cut.{truncate_lem}
use go_flywheel.Types.{
  Duration, ErrorClass, JobState, Result, RunOutcome, add_time, is_terminal, ok, permanent,
  validation,
}

superseded_finalize_keeps_jobs_example :
    (r : Db × FinalizeOutcome) × (finalize context options family
        (raw_from_row child_row 1 "older")
        "run"
        spawning
        none
        1900
      ≡ ok r)
    × (r.0.jobs ≡ family.jobs)
    × (r.0.minted ≡ family.minted)
    × (r.1.superseded ≡ true)
    × (r.1.enqueued_children ≡ 0)
    × (r.1.scheduled_at ≡ none)
    × (r.1.state ≡ state_of "child" family.jobs)
unfolding raw_from_row
superseded_finalize_keeps_jobs_example =
    superseded_finalize_keeps_jobs context options family (raw_from_row child_row 1 "older") "run"
      spawning none 1900 child_run refl refl refl refl

first_claim :
    any (λ r. str_eq "waiting" r.id) (dequeue (sort_rows claims_before) context family request).1
    ≡ true
unfolding dequeue go_flywheel.Driver.Claim.eligible raw_from_row
first_claim = refl

claims_exclude_example :
    any
      (λ r. str_eq "waiting" r.id)
      (dequeue
        (sort_rows claims_before)
        context
        (dequeue (sort_rows claims_before) context family request).0
        request).1
    ≡ false
claims_exclude_example =
    claims_exclude (sort_rows claims_before) claim_order-OrderLaws context context family request
      request "waiting" first_claim

chunks_cover_example :
    (flatten (chunks 2 (follow_up_chunk_size options) (parent_row ∷ child_row ∷ []))
      ≡ parent_row ∷ child_row ∷ [])
    × All
        (λ xs. length xs ≤ follow_up_chunk_size options)
        (chunks 2 (follow_up_chunk_size options) (parent_row ∷ child_row ∷ []))
chunks_cover_example = chunks_cover options (parent_row ∷ child_row ∷ [])

truncate_lem_example :
    (length (truncate (65 ∷ 195 ∷ 169 ∷ []) 2) ≤ 2)
    × ((3 ≤ 2) × (truncate (65 ∷ 195 ∷ 169 ∷ []) 2 ≡ 65 ∷ 195 ∷ 169 ∷ [])
        ⊎ (2 < 3)
          × ((k : ℕ) × (truncate (65 ∷ 195 ∷ 169 ∷ []) 2 ≡ take k (65 ∷ 195 ∷ 169 ∷ []))
              × (k ≤ 2)
              × ((k ≡ 0) ⊎ (rune_start (byte_at (65 ∷ 195 ∷ 169 ∷ []) k) ≡ true))
              × ((i : ℕ) → k < i → i ≤ 2 → rune_start (byte_at (65 ∷ 195 ∷ 169 ∷ []) i) ≡ false)))
truncate_lem_example = truncate_lem (65 ∷ 195 ∷ 169 ∷ []) 2

plan_shape_example :
    let p = plan_finalize plain_lib child_raw done (some failure) 1900 in
    (is_terminal p.job_state ≡ is_some p.finalized_at)
    × ((p.job_state ≡ JobState.retryable) ⊎ (p.job_state ≡ JobState.scheduled)
        ↔ (is_some p.scheduled_at ≡ true))
    × (p.job_state ≢ JobState.available)
    × (p.job_state ≢ JobState.running)
    × (p.job_state ≢ JobState.paused)
    × ((p.follow_ups ≡ true) ↔ (p.job_state ≡ JobState.succeeded))
plan_shape_example = plan_shape plain_lib child_raw done (some failure) 1900

failure_discards_or_retries_example :
    let p = plan_finalize plain_lib child_raw done (some failure) 1900 in
    ((p.job_state ≡ JobState.discarded) ↔ (
      (effective_class failure ≡ permanent)
      ⊎ (effective_class failure ≡ validation)
      ⊎ (child_raw.max_attempts ≤ℤ pos child_raw.attempt)))
    × ((p.job_state ≡ JobState.retryable)
        ↔ (effective_class failure ≢ permanent)
          × (effective_class failure ≢ validation)
          × (¬ (child_raw.max_attempts ≤ℤ pos child_raw.attempt)))
    × ((p.job_state ≢ JobState.retryable)
        ⊎ ((d : Duration) × RetryDelay plain_lib child_raw failure d
            × (p.scheduled_at ≡ some (add_time 1900 d))))
    × ((p.run_outcome ≡ RunOutcome.timeout) ↔ (effective_class failure ≡ ErrorClass.timeout))
    × ((p.run_outcome ≡ RunOutcome.error) ↔ (effective_class failure ≢ ErrorClass.timeout))
failure_discards_or_retries_example =
    failure_discards_or_retries plain_lib child_raw done failure 1900 refl refl

abbrev spawned : Result (Db × FinalizeOutcome)
spawned = finalize context options family child_raw "run" spawning none 1900

finalize_runs : (r : Db × FinalizeOutcome) × (spawned ≡ ok r)
unfolding finalize plan_finalize raw_from_row go_flywheel.Driver.FollowUps.insert_follow_ups
    go_flywheel.Driver.Opts.follow_up_limit go_flywheel.Insert.Row.build_child_row
    go_flywheel.Insert.Stamp.stamp_row go_flywheel.Insert.Conflict.conflict_insert_chunk
    follow_up_chunk_size go_flywheel.Insert.Conflict.insert_skipping_conflicts
    go_flywheel.Insert.Conflict.before_create go_flywheel.Insert.Row.build_row
    go_flywheel.Driver.Finalize.fire_parent go_flywheel.Driver.Barrier.fire_barrier_if_complete
    go_flywheel.Insert.Conflict.clash go_flywheel.Plan.job_finalize_update
    go_flywheel.Driver.Finalize.marshal_run_output
finalize_runs = (_, refl)

finalize_keeps_table_example : TableOk finalize_runs.0.0.jobs
finalize_keeps_table_example =
    finalize_keeps_table context options family child_raw "run" spawning none 1900 finalize_runs.0
      family-TableOk finalize_runs.1

abbrev follow_up_run : Result (Db × ℕ)
follow_up_run = insert_follow_ups context options family (child_spec ∷ []) "child"

follow_ups_run : (r : Db × ℕ) × (follow_up_run ≡ ok r)
unfolding insert_follow_ups go_flywheel.Driver.Opts.follow_up_limit
    go_flywheel.Insert.Row.build_child_row go_flywheel.Insert.Stamp.stamp_row
    go_flywheel.Insert.Conflict.conflict_insert_chunk follow_up_chunk_size
    go_flywheel.Insert.Conflict.insert_skipping_conflicts go_flywheel.Insert.Conflict.before_create
    go_flywheel.Insert.Row.build_row
follow_ups_run = (_, refl)

follow_ups_keep_table_example : TableOk follow_ups_run.0.0.jobs
follow_ups_keep_table_example =
    follow_ups_keep_table context options family (child_spec ∷ []) "child" follow_ups_run.0
      family-TableOk follow_ups_run.1

fire_run :
    (d : Db) × (fire_barrier_if_complete context ended_family "parent" "child" ≡ ok (d, true))
unfolding fire_barrier_if_complete go_flywheel.Insert.Row.build_child_row
    go_flywheel.Insert.Stamp.stamp_row go_flywheel.Insert.Conflict.conflict_insert_chunk
    go_flywheel.Insert.Conflict.insert_skipping_conflicts go_flywheel.Insert.Conflict.before_create
    go_flywheel.Insert.Row.build_row
fire_run = (_, refl)

fire_keeps_table_example : TableOk fire_run.0.jobs
fire_keeps_table_example =
    fire_keeps_table context ended_family "parent" "child" (fire_run.0, true) ended_family-TableOk
      fire_run.1

fires_once_example :
    fire_barrier_if_complete context fire_run.0 "parent" "waiting" ≡ ok (fire_run.0, false)
fires_once_example =
    fires_once context context ended_family fire_run.0 "parent" "child" "waiting" fire_run.1

dequeue_holds_example :
    any
      (holds_claim "waiting" "first")
      (dequeue (sort_rows claims_before) context family request).0.jobs
    ≡ true
dequeue_holds_example =
    dequeue_holds (sort_rows claims_before) claim_order-OrderLaws context family request "waiting"
      first_claim

dequeue_hands_out_example :
    length (dequeue (sort_rows claims_before) context family request).1
    ≡ min request.limit
        (count (eligible 2000 request.queues request.class request.claim_any) family.jobs)
dequeue_hands_out_example =
    dequeue_hands_out (sort_rows claims_before) claim_order-OrderLaws context family request refl
