-- ===== src/Dispatch/Verdicts.antt =====
-- About classify and unknownKindDeferral of internal/core/runner.go, with planFinalize of driver.go.
use go_flywheel.Base.{
  Bool, Bool-cases, Option, ap, arith, false, if◌then◌else◌, inl, inr, leb, none, refl, some, sym,
  true, ℕ, ◌+◌, ◌-◌, ◌==◌, ◌||◌, ◌↔◌, ◌∙◌, ◌≡◌, ◌≢◌, ◌≤◌, ◌⊎◌,
}
use go_flywheel.Base.Int.{leb_ℤ, pos, pos_part, ◌≤ℤ◌}
use go_flywheel.Dispatch.{
  Raised, WorkerHooks, asked_class, class_for, classify, min_duration, unknown_kind_deferral,
}
use go_flywheel.Env.{Lib}
use go_flywheel.Plan.{one_minute, one_second, plan_finalize}
use go_flywheel.Plan.Cases.{failure_discards_or_retries}
use go_flywheel.Types.{
  Duration, ErrorClass, JobState, RunOutcome, Time, add_time, permanent, sub_time, validation,
}
use go_flywheel.Work.{RawJob, WorkResult}

-- A Classifier that is there and answers with this class.
abbrev pub Says : WorkerHooks → Raised → ErrorClass → Type 0
Says entry e c = (f : Raised → Option ErrorClass) × (entry.classifier ≡ some f) × (f e ≡ some c)

asked_class-Says :
    (o : Option (Raised → Option ErrorClass)) (e : Raised) (c : ErrorClass)
    → c ≢ ErrorClass.transient
    → asked_class o e ≡ c
    → (f : Raised → Option ErrorClass) × (o ≡ some f) × (f e ≡ some c)
asked_class-Says none e c n h = absurd (n (sym h))
asked_class-Says (some f) e c n h = (f, refl, answered (f e) h)
  where
    answered :
        (r : Option ErrorClass)
        → elim r as (λ _. ErrorClass) [ none ↦ ErrorClass.transient | some k ↦ k ] ≡ c
        → r ≡ some c
    answered none t = absurd (n (sym t))
    answered (some k) t = ap (λ x. some x) t

Says-asked_class :
    (entry : WorkerHooks) (e : Raised) (c : ErrorClass)
    → Says entry e c
    → asked_class entry.classifier e ≡ c
Says-asked_class entry e c (f, there, answer) = rw (there, answer) refl

-- The class that the tests on an error leave of an answer.
picked : Bool → Bool → ErrorClass → ErrorClass
picked undecodable late k =
    if undecodable then ErrorClass.validation else if late then ErrorClass.timeout else k

picked_causes :
    (u t : Bool) (k : ErrorClass)
    → ((picked u t k ≡ permanent) ↔ (u ≡ false) × (t ≡ false) × (k ≡ permanent))
      × ((picked u t k ≡ validation) ↔ (u ≡ true) ⊎ (t ≡ false) × (k ≡ validation))
      × ((picked u t k ≡ ErrorClass.timeout)
          ↔ (u ≡ false) × ((t ≡ true) ⊎ (k ≡ ErrorClass.timeout)))
unfolding picked
picked_causes u t k =
    ((ground arith, ground arith), (ground arith, ground arith), (ground arith, ground arith))

class_for-picked :
    (entry : WorkerHooks) (e : Raised)
    → class_for entry e ≡ picked e.undecodable e.past_deadline (asked_class entry.classifier e)
unfolding class_for picked
class_for-picked entry e = refl

module _ (lib : Lib) (entry : WorkerHooks) (backoff : ℕ → Duration) (e : Raised) (raw : RawJob)
    (result : WorkResult) (at : Time) (kept : result.cancel ≡ false)
    (awake : result.snooze ≡ none) where
  -- A failed attempt that its worker neither cancelled nor snoozed discards the job exactly when its
  -- args cannot be decoded, or the attempt was the last its budget allows, or its error is not
  -- DeadlineExceeded and its Classifier says permanent or validation; and the run is a timeout exactly
  -- when its args could be decoded, and its error is DeadlineExceeded or its Classifier says timeout.
  pub verdict_decides :
      let p = plan_finalize lib raw result (some (classify entry backoff e raw)) at in
      ((p.job_state ≡ JobState.discarded) ↔ (
        (e.undecodable ≡ true)
        ⊎ (raw.max_attempts ≤ℤ pos raw.attempt)
        ⊎ (e.past_deadline ≡ false) × (Says entry e permanent ⊎ Says entry e validation)))
      × ((p.run_outcome ≡ RunOutcome.timeout)
          ↔ (e.undecodable ≡ false) × ((e.past_deadline ≡ true) ⊎ Says entry e ErrorClass.timeout))
  unfolding classify
  verdict_decides =
      let r =
        failure_discards_or_retries lib raw result (classify entry backoff e raw) at kept awake in
      let same = class_for-picked entry e in
      let (perm, valid, late) =
        picked_causes e.undecodable e.past_deadline (asked_class entry.classifier e) in
      let ask = asked_class-Says entry.classifier e in
      let told = Says-asked_class entry e in
      (
        (
          λ h. elim (r.0.0 h) [
            | inl c ↦
                let (u, t, k) = perm.0 (sym same ∙ c) in
                inr (inr (t, inl (ask permanent (λ x. cc) k)))
            | inr (inl c) ↦ elim (valid.0 (sym same ∙ c)) [
              | inl u ↦ inl u
              | inr (t, k) ↦ inr (inr (t, inr (ask validation (λ x. cc) k)))
            ]
            | inr (inr m) ↦ inr (inl m)
          ],
          λ h. r.0.1 (elim h [
            | inl u ↦ inr (inl (same ∙ valid.1 (inl u)))
            | inr (inl m) ↦ inr (inr m)
            | inr (inr (t, says)) ↦ elim (Bool-cases e.undecodable) [
              | inl u ↦ inr (inl (same ∙ valid.1 (inl u)))
              | inr u ↦ elim says [
                | inl k ↦ inl (same ∙ perm.1 (u, t, told permanent k))
                | inr k ↦ inr (inl (same ∙ valid.1 (inr (t, told validation k))))
              ]
            ]
          ]),
        ),
        (
          λ h.
              let (u, c) = late.0 (sym same ∙ r.3.0 h) in
              (u, elim c [ inl t ↦ inl t | inr k ↦ inr (ask ErrorClass.timeout (λ x. cc) k) ]),
          λ h. r.3.1 (
              same
              ∙ late.1 (h.0, elim h.1 [ inl t ↦ inl t | inr k ↦ inr (told ErrorClass.timeout k) ])),
        ),
      )

-- A deferral of a job of an unknown kind runs out no later than the job's grace after its enqueue, and
-- is no longer than the rung of its attempt.
pub deferral_within_grace :
    (lib : Lib) (created_at now : Time) (attempt : ℕ) (grace d : Duration)
    → created_at ≤ now
    → unknown_kind_deferral lib created_at now attempt grace ≡ some d
    → (add_time now d ≤ created_at + pos_part grace)
      × (d ≤ℤ lib.exponential one_second one_minute attempt)
unfolding unknown_kind_deferral
deferral_within_grace lib created_at now attempt grace d past h =
    let age = pos_part (sub_time now created_at) in
    let rung = lib.exponential one_second one_minute attempt in
    elim (Bool-cases (leb_ℤ grace (pos 0) || created_at == 0)) [
      | inl e ↦ absurd (nothing (sym (rw e refl) ∙ h))
      | inr e ↦ elim (Bool-cases (leb (pos_part grace) age)) [
        | inl k ↦ absurd (nothing (sym (rw (e, k) refl) ∙ h))
        | inr k ↦
            let same : min_duration rung (pos (pos_part grace - age)) ≡ d =
              value (sym (rw (e, k) refl) ∙ h) in
            rw (← same) (bounded rung age k (aged past))
      ]
    ]
  where
    nothing : {x : Duration} → none ≡ some x → ⊥
    nothing {x} t = cc

    value : {x y : Duration} → some x ≡ some y → x ≡ y
    value {x} {y} t = ap (λ o. elim o as (λ _. Duration) [ none ↦ x | some z ↦ z ]) t

    aged : created_at ≤ now → now ≡ created_at + pos_part (sub_time now created_at)
    aged t = ground arith

    bounded :
        (rung : Duration) (age : ℕ)
        → leb (pos_part grace) age ≡ false
        → now ≡ created_at + age
        → (add_time now (min_duration rung (pos (pos_part grace - age)))
            ≤ created_at + pos_part grace)
          × (min_duration rung (pos (pos_part grace - age)) ≤ℤ rung)
    bounded rung age k t = elim (Bool-cases (leb_ℤ rung (pos (pos_part grace - age)))) [
      | inl m ↦ rw m (ground arith, omega arith)
      | inr m ↦ rw m (ground arith, ground arith)
    ]
