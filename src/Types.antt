-- ===== src/Types.antt =====
-- internal/core/types.go, read.go, progress.go and errors.go: the wire vocabulary of the runtime.
-- The string enums are data types; a value of one is a valid one, which the row hooks enforce.
use go_flywheel.Base.{
  Bool, List, String, [], arith, false, refl, subst, true, ℕ, ◌+◌, ◌-◌, ◌∷◌, ◌≡◌,
}
use go_flywheel.Base.Int.{neg_part, pos_part, sub_ℕ, ℤ}

-- Instants are nanoseconds since Go's zero time, so that 0 is the instant that `IsZero` reports.
abbrev pub Time : Type 0
Time = ℕ

-- A span of nanoseconds, possibly negative.
abbrev pub Duration : Type 0
Duration = ℤ

-- `t.Add(d)`; no instant lies before the zero time.
abbrev pub add_time : Time → Duration → Time
add_time t d = t + pos_part d - neg_part d

-- `t.Sub(u)`.
abbrev pub sub_time : Time → Time → Duration
sub_time t u = sub_ℕ t u

abbrev pub Bytes : Type 0
Bytes = List ℕ

pub data JobState : Type 0 where
  available running retryable scheduled paused succeeded cancelled discarded : JobState

pub data ErrorClass : Type 0 where
  transient permanent validation timeout : ErrorClass

pub data RunOutcome : Type 0 where
  started success error snooze cancelled timeout crashed : RunOutcome

pub data InsertSource : Type 0 where
  client periodic follow_up barrier : InsertSource

pub JobState-discrete : Discrete JobState
JobState-discrete = hlevel

-- isTerminalStateString: a switch of its own.
abbrev pub is_terminal : JobState → Bool
is_terminal JobState.succeeded = true
is_terminal JobState.cancelled = true
is_terminal JobState.discarded = true
is_terminal _ = false

abbrev pub terminal_states : List JobState
terminal_states = JobState.succeeded ∷ JobState.cancelled ∷ JobState.discarded ∷ []

abbrev pub non_terminal_states : List JobState
non_terminal_states =
    JobState.available ∷ JobState.running ∷ JobState.retryable ∷ JobState.scheduled
    ∷ JobState.paused ∷ []

abbrev pub claimable_states : List JobState
claimable_states = JobState.available ∷ JobState.retryable ∷ JobState.scheduled ∷ []

abbrev pub waiting_states : List JobState
waiting_states = JobState.available ∷ JobState.retryable ∷ JobState.scheduled ∷ JobState.paused ∷ []

-- `==` on states and `slices.Contains` on lists of them.
abbrev pub state_eq : JobState → JobState → Bool
state_eq JobState.available JobState.available = true
state_eq JobState.running JobState.running = true
state_eq JobState.retryable JobState.retryable = true
state_eq JobState.scheduled JobState.scheduled = true
state_eq JobState.paused JobState.paused = true
state_eq JobState.succeeded JobState.succeeded = true
state_eq JobState.cancelled JobState.cancelled = true
state_eq JobState.discarded JobState.discarded = true
state_eq _ _ = false

pub state_eq_refl : (s : JobState) → state_eq s s ≡ true
state_eq_refl s = ground arith

abbrev pub state_in : JobState → List JobState → Bool
state_in s [] = false
state_in s (x ∷ xs) = elim (state_eq s x) [ true ↦ true | false ↦ state_in s xs ]

-- errors.go, with the messages that tell its validation errors apart.
pub data Error : Type 0 where
  invalid : String → String → Error
  already_enqueued : String → String → Error
  too_many_follow_ups barrier_too_wide barrier_no_children : Error
  job_not_found job_running job_terminal job_not_terminal : Error
  unknown_kind job_cancelled decode_args : Error
  changed_while_locked record_not_found duplicate_key encode_failed : Error

-- What a Go function that returns a value and an error hands back.
pub data Result {ℓ} (V : Type ℓ) : Type ℓ where
  err : Error → Result V
  ok : V → Result V

-- A test that must pass before the steps that follow, `if !passes { return e }`.
abbrev pub guard : Bool → Error → Result (Unit {0})
guard passes e = elim passes [ false ↦ err e | true ↦ ok tt ]

infixl 5 ◌>>=◌
abbrev pub ◌>>=◌ {ℓ μ} : {V : Type ℓ} {W : Type μ} → Result V → (V → Result W) → Result W
err e >>= next = err e
ok v >>= next = next v

infixl 5 ◌>>◌
abbrev pub ◌>>◌ {μ} : {W : Type μ} → Result (Unit {0}) → Result W → Result W
step >> after = step >>= (λ done. after)

-- What holds of a result's value, if there is one.
abbrev pub OnOk {ℓ κ} : {A : Type ℓ} → (A → Type κ) → Result A → Type κ
OnOk P (ok a) = P a
OnOk P (err e) = Unit

-- One rule for each step of a chain: what follows may use that the step succeeded.
pub OnOk-bind {ℓ κ μ} :
    {A : Type ℓ} {B : Type κ} (P : B → Type μ) (m : Result A) (f : A → Result B)
    → ((a : A) → m ≡ ok a → OnOk P (f a))
    → OnOk P (m >>= f)
OnOk-bind P (ok a) f h = h a refl
OnOk-bind P (err e) f h = tt

pub OnOk-at {ℓ κ} : {A : Type ℓ} (P : A → Type κ) (m : Result A) (a : A) → OnOk P m → m ≡ ok a → P a
OnOk-at P (ok x) a h e = subst P (cc) h
OnOk-at P (err x) a h e = cc

pub OnOk-map {ℓ κ μ} :
    {A : Type ℓ} (P : A → Type κ) (Q : A → Type μ) (m : Result A)
    → ((a : A) → P a → Q a)
    → OnOk P m
    → OnOk Q m
OnOk-map P Q (ok a) f h = f a h
OnOk-map P Q (err e) f h = tt
