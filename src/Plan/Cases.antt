-- ===== src/Plan/Cases.antt =====
-- About planFinalize of internal/core/driver.go: the states that it decides on.
use go_flywheel.Base.{
  Bool-cases, Option, arith, false, inl, inr, is_some, none, refl, some, true, ◌||◌, ◌↔◌, ◌≡◌, ◌≢◌,
  ◌⊎◌,
}
use go_flywheel.Base.Int.{leb_ℤ, ltb_ℤ, pos, ◌≤ℤ◌}
use go_flywheel.Env.{Lib}
use go_flywheel.Plan.{
  class_of, default_backoff, delay_of, is_permanent, one_minute, one_second, plan_error,
  plan_finalize,
}
use go_flywheel.Types.{
  Duration, ErrorClass, JobState, RunOutcome, Time, add_time, is_terminal, permanent, validation,
}
use go_flywheel.Work.{ClassifiedError, RawJob, WorkErr, WorkResult}

module _ (lib : Lib) (raw : RawJob) (result : WorkResult) (work_err : Option WorkErr)
    (at : Time) where
  -- A plan ends the job exactly when it stamps a finalization time, moves it to one of the five
  -- states a finished attempt can leave (never available, running or paused), and reschedules
  -- exactly the jobs that run again.
  pub plan_shape :
      let p = plan_finalize lib raw result work_err at in
      (is_terminal p.job_state ≡ is_some p.finalized_at)
      × ((p.job_state ≡ JobState.retryable) ⊎ (p.job_state ≡ JobState.scheduled)
          ↔ (is_some p.scheduled_at ≡ true))
      × (p.job_state ≢ JobState.available)
      × (p.job_state ≢ JobState.running)
      × (p.job_state ≢ JobState.paused)
      × ((p.follow_ups ≡ true) ↔ (p.job_state ≡ JobState.succeeded))
  unfolding plan_finalize
  plan_shape = (
    ground arith,
    (ground arith, ground arith),
    ground arith,
    ground arith,
    ground arith,
    (ground arith, ground arith),
  )

-- The class an error is retried or discarded by: transient unless a classified error names one.
abbrev pub effective_class : WorkErr → ErrorClass
effective_class e = elim e.classified [
  | none ↦ ErrorClass.transient
  | some c ↦ elim c.class [ none ↦ ErrorClass.transient | some k ↦ k ]
]

-- The delay before a retry: the one that a classified error asks for, if that is positive, and the
-- rung of the attempt otherwise.
abbrev pub RetryDelay : Lib → RawJob → WorkErr → Duration → Type 0
RetryDelay lib raw e d =
    ((c : ClassifiedError) × (e.classified ≡ some c)
      × (pos 1 ≤ℤ c.retry_delay)
      × (d ≡ c.retry_delay))
    ⊎ ((e.classified ≡ none)
        ⊎ ((c : ClassifiedError) × (e.classified ≡ some c) × (c.retry_delay ≤ℤ pos 0)))
      × (d ≡ lib.exponential one_second one_minute raw.attempt)

delay_of-RetryDelay :
    (lib : Lib) (raw : RawJob) (e : WorkErr)
    → RetryDelay lib raw e (delay_of (default_backoff lib raw.attempt) e.classified)
unfolding default_backoff
delay_of-RetryDelay lib raw e = by_error e.classified refl
  where
    positive : (d : Duration) → ltb_ℤ (pos 0) d ≡ true → pos 1 ≤ℤ d
    positive d h = ground arith

    not_positive : (d : Duration) → ltb_ℤ (pos 0) d ≡ false → d ≤ℤ pos 0
    not_positive d h = ground arith

    by_error :
        (o : Option ClassifiedError)
        → e.classified ≡ o
        → RetryDelay lib raw e (delay_of (lib.exponential one_second one_minute raw.attempt) o)
    by_error none x = inr (inl x, refl)
    by_error (some c) x = elim (Bool-cases (ltb_ℤ (pos 0) c.retry_delay)) [
      | inl t ↦ rw t (inl (c, x, positive c.retry_delay t, refl))
      | inr t ↦ rw t (inr (inr (c, x, not_positive c.retry_delay t), refl))
    ]

module _ (lib : Lib) (raw : RawJob) (result : WorkResult) (e : WorkErr) (at : Time)
    (kept : result.cancel ≡ false) (awake : result.snooze ≡ none) where
  -- A failed attempt that its worker neither cancelled nor snoozed discards the job exactly when
  -- its class is permanent or validation, or the attempt was the last its budget allows; it makes the
  -- job retryable exactly in all other cases, after the delay its error asks for, if that is positive,
  -- and the rung of the attempt otherwise; and the run is a timeout exactly when its class is, and an
  -- error in all other cases.
  pub failure_discards_or_retries :
      let p = plan_finalize lib raw result (some e) at in
      ((p.job_state ≡ JobState.discarded) ↔ (
        (effective_class e ≡ permanent)
        ⊎ (effective_class e ≡ validation)
        ⊎ (raw.max_attempts ≤ℤ pos raw.attempt)))
      × ((p.job_state ≡ JobState.retryable)
          ↔ (effective_class e ≢ permanent)
            × (effective_class e ≢ validation)
            × (¬ (raw.max_attempts ≤ℤ pos raw.attempt)))
      × ((p.job_state ≢ JobState.retryable)
          ⊎ ((d : Duration) × RetryDelay lib raw e d × (p.scheduled_at ≡ some (add_time at d))))
      × ((p.run_outcome ≡ RunOutcome.timeout) ↔ (effective_class e ≡ ErrorClass.timeout))
      × ((p.run_outcome ≡ RunOutcome.error) ↔ (effective_class e ≢ ErrorClass.timeout))
  unfolding plan_finalize plan_error
  failure_discards_or_retries = (
    (ground arith, ground arith),
    (ground arith, ground arith),
    rw (kept, awake)
        (elim (Bool-cases
          (is_permanent (class_of e.classified) || leb_ℤ raw.max_attempts (pos raw.attempt))) [
            | inl t ↦ rw t (inl (λ h. cc))
            | inr t ↦ rw t (inr (_, delay_of-RetryDelay lib raw e, refl))
          ]),
    (ground arith, ground arith),
    (ground arith, ground arith),
  )
