-- ===== src/Dispatch.antt =====
-- claimAndDispatch, unknownKindDeferral, resolveTimeout and classify of internal/core/runner.go, with
-- the interfaces of a registryEntry of registry.go. What an attempt does to the database is not
-- modelled here: a started job is one that pool.start was called for, and on an inline pool its
-- attempt ends, its slot and its permit released, before the next one starts.
pub mod Holding
pub mod Accounts
pub mod Verdicts
use go_flywheel.Base.{
  Bool, List, Option, String, [], false, if◌then◌else◌, leb, length, ltb, none, some, suc, true,
  zero, ℕ, ◌*◌, ◌-◌, ◌==◌, ◌||◌, ◌∷◌,
}
use go_flywheel.Base.Int.{leb_ℤ, ltb_ℤ, pos, pos_part}
use go_flywheel.Env.{Lib}
use go_flywheel.Plan.{one_minute, one_second}
use go_flywheel.Pool.{Pool, admit, release, start}
use go_flywheel.Types.{Bytes, Duration, ErrorClass, Result, Time, err, ok, sub_time}
use go_flywheel.Work.{RawJob, WorkErr}

-- An error of a worker: its text, and what errors.Is says of ErrDecodeArgs and of
-- context.DeadlineExceeded.
pub record Raised : Type 0 where
  pub message : Bytes
  pub undecodable : Bool
  pub past_deadline : Bool

-- The Classifier, Retryable and Timeouter of a worker, where it has them; an empty class is `none`.
pub record WorkerHooks : Type 0 where
  pub classifier : Option (Raised → Option ErrorClass)
  pub retryable : Option (Raised → ℕ → Duration)
  pub timeouter : Option Duration

abbrev pub asked_class : Option (Raised → Option ErrorClass) → Raised → ErrorClass
asked_class none e = ErrorClass.transient
asked_class (some f) e = elim (f e) [ none ↦ ErrorClass.transient | some c ↦ c ]

unfoldable pub class_for : WorkerHooks → Raised → ErrorClass
class_for entry e =
    if e.undecodable
    then ErrorClass.validation
    else if e.past_deadline
    then ErrorClass.timeout
    else asked_class entry.classifier e

abbrev asked_delay : Option (Raised → ℕ → Duration) → Raised → ℕ → Duration
asked_delay none e attempt = pos 0
asked_delay (some f) e attempt = f e attempt

-- `backoff` draws the jittered delay of an attempt.
unfoldable pub classify : WorkerHooks → (ℕ → Duration) → Raised → RawJob → WorkErr
unfolding class_for
classify entry backoff e raw =
    let delay = asked_delay entry.retryable e raw.attempt in
    record {
      message = e.message;
      classified = some (record {
        class = some (class_for entry e);
        retry_delay = if leb_ℤ delay (pos 0) then backoff raw.attempt else delay;
      });
    }

-- The timeout of an attempt: the job's, then the worker's, then the runner's; 0 is none.
unfoldable pub resolve_timeout : Duration → WorkerHooks → RawJob → Duration
resolve_timeout default_timeout entry raw =
    let fallback : Duration = elim entry.timeouter [
      | none ↦ default_timeout
      | some d ↦ if ltb_ℤ (pos 0) d then d else default_timeout
    ] in
    elim raw.timeout_ms [
      | none ↦ fallback
      | some ms ↦ if ltb_ℤ (pos 0) ms then pos (pos_part ms * 1000000) else fallback
    ]

abbrev pub min_duration : Duration → Duration → Duration
min_duration a b = if leb_ℤ a b then a else b

-- unknownKindDeferral: the delay, or `none` to discard.
unfoldable pub unknown_kind_deferral : Lib → Time → Time → ℕ → Duration → Option Duration
unknown_kind_deferral lib created_at now attempt grace =
    if leb_ℤ grace (pos 0) || created_at == 0
    then none
    else (let age = pos_part (sub_time now created_at) in
        if leb (pos_part grace) age
        then none
        else some (
            min_duration (lib.exponential one_second one_minute attempt)
              (pos (pos_part grace - age))))

-- A claim's outcome: the pool (`none` for a panic), the permits released at once, and the started
-- jobs, each with whether it carries a permit that its end releases.
pub record Dispatched : Type 0 where
  pub pool : Option Pool
  pub given_back : ℕ
  pub started_jobs : List (RawJob × Bool)

-- `i < grant.N`
unfoldable pub attach : ℕ → List RawJob → List (RawJob × Bool)
attach n [] = []
attach zero (r ∷ rs) = (r, false) ∷ attach zero rs
attach (suc n) (r ∷ rs) = (r, true) ∷ attach n rs

-- The slots of a claim that came back short, or with more than was reserved.
unfoldable pub settle_slots : ℕ → ℕ → Pool → Option Pool
settle_slots reserved n p =
    if ltb n reserved
    then release (pos (reserved - n)) p
    else if ltb reserved n
    then some (admit (pos (n - reserved)) p)
    else some p

unfoldable pub start_all : ℕ → Pool → Option Pool
unfolding start
start_all zero p = some p
start_all (suc n) p = elim (start p) [ none ↦ none | some q ↦ start_all n q ]

abbrev pub started_pool : ℕ → Option Pool → Option Pool
started_pool n none = none
started_pool n (some p) = start_all n p

abbrev pub nothing_claimed : ℕ → ℕ → Pool → Dispatched
nothing_claimed reserved granted p = record {
  pool = release (pos reserved) p;
  given_back = granted;
  started_jobs = [];
}

-- After Dequeue; `granted` is grant.N, 0 without a limiter.
unfoldable pub dispatch_batch : ℕ → ℕ → Pool → Result (List RawJob) → Dispatched
unfolding attach settle_slots start_all
dispatch_batch reserved granted p (err e) = nothing_claimed reserved granted p
dispatch_batch reserved granted p (ok []) = nothing_claimed reserved granted p
dispatch_batch reserved granted p (ok (r ∷ rs)) =
    let n = length (r ∷ rs) in
    record {
      pool = started_pool n (settle_slots reserved n p);
      given_back = granted - n;
      started_jobs = attach granted (r ∷ rs);
    }

-- claimAndDispatch, on what Dequeue would answer.
unfoldable pub claim_and_dispatch : List String → ℕ → ℕ → Pool → Result (List RawJob) → Dispatched
claim_and_dispatch [] reserved granted p answer = nothing_claimed reserved granted p
claim_and_dispatch (q ∷ qs) reserved granted p answer = dispatch_batch reserved granted p answer
