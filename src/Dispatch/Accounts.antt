-- ===== src/Dispatch/Accounts.antt =====
-- About claimAndDispatch of internal/core/runner.go: its slots and permits.
use go_flywheel.Base.{
  Bool, List, String, [], ap, arith, count, length, refl, suc, zero, ℕ, ◌+◌, ◌-◌, ◌∙◌, ◌∷◌, ◌≡◌,
  ◌≤◌,
}
use go_flywheel.Dispatch.{Dispatched, attach, claim_and_dispatch, dispatch_batch, nothing_claimed}
use go_flywheel.Dispatch.Holding.{
  Holding, in_flight, release-Holding, settle_slots-Holding, start_all-Holding,
}
use go_flywheel.Pool.{Pool}
use go_flywheel.Pool.Steps.{PoolOk}
use go_flywheel.Types.{Result, err, ok}
use go_flywheel.Work.{RawJob}

attached : (n : ℕ) (rs : List RawJob) → n - length rs + count (λ x. x.1) (attach n rs) ≡ n
unfolding attach
attached n [] = omega arith
attached zero (r ∷ rs) = omega (arith, attached zero rs)
attached (suc n) (r ∷ rs) = omega (arith, attached n rs)

length-attach : (n : ℕ) (rs : List RawJob) → length (attach n rs) ≡ length rs
unfolding attach
length-attach n [] = refl
length-attach zero (r ∷ rs) = ap suc (length-attach zero rs)
length-attach (suc n) (r ∷ rs) = ap suc (length-attach n rs)

-- What claimAndDispatch does with the slots and the permits it was given: every permit is released at
-- once or carried by one started job, and the pool, which is there and well formed, gives up the
-- reserved slots, and holds a slot for each started job that still runs.
abbrev pub Accounted : ℕ → ℕ → Pool → Dispatched → Type 0
Accounted reserved granted p d =
    (d.given_back + count (λ x. x.1) d.started_jobs ≡ granted)
    × Holding p.inline (p.held - reserved + in_flight p.inline (length d.started_jobs))
        (p.running + in_flight p.inline (length d.started_jobs)) d.pool

nothing_claimed-Accounted :
    (reserved granted : ℕ) (p : Pool)
    → reserved ≤ p.held
    → PoolOk p
    → Accounted reserved granted p (nothing_claimed reserved granted p)
nothing_claimed-Accounted reserved granted p h w =
    let (q, e, same, held, runs, v) = release-Holding reserved p h w in
    (
      omega arith,
      (
        q,
        e,
        same,
        held ∙ none_left p.inline (p.held - reserved),
        runs ∙ none_left p.inline p.running,
        v,
      ),
    )
  where
    none_left : (t : Bool) (m : ℕ) → m ≡ m + in_flight t 0
    none_left t m = ground arith

dispatch_batch-Accounted :
    (reserved granted : ℕ) (p : Pool) (answer : Result (List RawJob))
    → reserved ≤ p.held
    → PoolOk p
    → Accounted reserved granted p (dispatch_batch reserved granted p answer)
unfolding dispatch_batch
dispatch_batch-Accounted reserved granted p (err e) h w =
    nothing_claimed-Accounted reserved granted p h w
dispatch_batch-Accounted reserved granted p (ok []) h w =
    nothing_claimed-Accounted reserved granted p h w
dispatch_batch-Accounted reserved granted p (ok (r ∷ rs)) h w =
    let n = length (r ∷ rs) in
    let (q, e, same, held, runs, v) = settle_slots-Holding reserved n p h w in
    let (t, f, same', held', runs', u) = start_all-Holding n q (omega (arith, held)) v in
    (
      attached granted (r ∷ rs),
      rw (e, length-attach granted (r ∷ rs))
          (
            t,
            f,
            same' ∙ same,
            held' ∙ left q.held q.inline p.inline (p.held - reserved) n held same,
            runs' ∙ rw (same, runs) refl,
            u,
          ),
    )
  where
    left :
        (a : ℕ) (s t : Bool) (m n : ℕ)
        → a ≡ m + n
        → s ≡ t
        → a - (n - in_flight s n) ≡ m + in_flight t n
    left a s t m n x y = rw (x, y) (split t)
      where
        split : (b : Bool) → m + n - (n - in_flight b n) ≡ m + in_flight b n
        split b = ground arith

-- However a claim comes out (no queue to claim from, an error, nothing, fewer jobs than reserved, or
-- more), given slots that a well-formed pool holds, claimAndDispatch releases each permit at once or
-- has one started job carry it, and leaves the pool well formed, without a panic: less the reserved
-- slots, and, unless the pool is inline, with a slot held by each started job, which runs.
pub slots_and_permits-Accounted :
    (queues : List String) (reserved granted : ℕ) (p : Pool) (answer : Result (List RawJob))
    → reserved ≤ p.held
    → PoolOk p
    → Accounted reserved granted p (claim_and_dispatch queues reserved granted p answer)
unfolding claim_and_dispatch
slots_and_permits-Accounted [] reserved granted p answer h w =
    nothing_claimed-Accounted reserved granted p h w
slots_and_permits-Accounted (q ∷ qs) reserved granted p answer h w =
    dispatch_batch-Accounted reserved granted p answer h w
