-- ===== src/Queues/Caps.antt =====
-- About claimable of internal/core/queue_state.go: the cap it sets on the runner's pool.
use go_flywheel.Base.{
  All, Bool, Bool-cases, List, Option, [], arith, inl, inr, none, some, suc, zero, ℕ, ◌∷◌, ◌≤◌,
}
use go_flywheel.Base.Int.{ltb_ℤ, negsuc, pos, ℤ, ◌≤ℤ◌}
use go_flywheel.Pool.{Pool, at_least_one, set_limit}
use go_flywheel.Queues.{
  QueueConfig, QueueRow, QueueState, lower, lowest_cap, or_concurrency, refresh_state,
}
use go_flywheel.Types.{ok}

abbrev Under : Option ℤ → ℤ → Type 0
Under none m = ⊥
Under (some l) m = l ≤ℤ m

-- What a cap, and a row, asks of a limit.
abbrev pub Meets : Option ℤ → ℕ → Type 0
Meets none limit = Unit
Meets (some m) limit = limit ≤ at_least_one m

abbrev pub Capped : ℕ → QueueRow → Type 0
Capped limit r = Meets r.max_concurrency limit

lower-first : (n : ℤ) (c : Option ℤ) → Under (lower (some n) c) n
lower-first n none = omega arith
lower-first n (some m) = elim (Bool-cases (ltb_ℤ n m)) [
  | inl e ↦ rw e (omega arith)
  | inr e ↦ rw e (ground arith)
]

lower-rest : (o c : Option ℤ) (m : ℤ) → Under c m → Under (lower o c) m
lower-rest none c m h = h
lower-rest (some n) none m h = absurd h
lower-rest (some n) (some k) m h = elim (Bool-cases (ltb_ℤ n k)) [
  | inl e ↦ rw e (ground arith)
  | inr e ↦ rw e h
]

lowest_cap-rest :
    (c : Option ℤ) (rows : List QueueRow) (m : ℤ) → Under c m → Under (lowest_cap c rows) m
unfolding lowest_cap
lowest_cap-rest c [] m h = h
lowest_cap-rest c (r ∷ rs) m h =
    lowest_cap-rest (lower r.max_concurrency c) rs m (lower-rest r.max_concurrency c m h)

at_least_one_mono : (m n : ℤ) → m ≤ℤ n → at_least_one m ≤ at_least_one n
at_least_one_mono (pos zero) (pos zero) h = omega arith
at_least_one_mono (pos zero) (pos (suc n)) h = omega arith
at_least_one_mono (pos zero) (negsuc n) h = omega arith
at_least_one_mono (pos (suc m)) (pos zero) h = omega arith
at_least_one_mono (pos (suc m)) (pos (suc n)) h = omega arith
at_least_one_mono (pos (suc m)) (negsuc n) h = omega arith
at_least_one_mono (negsuc m) (pos zero) h = omega arith
at_least_one_mono (negsuc m) (pos (suc n)) h = omega arith
at_least_one_mono (negsuc m) (negsuc n) h = omega arith

set_limit-below : (n : ℤ) (p : Pool) → (set_limit n p).limit ≤ at_least_one n
unfolding set_limit
set_limit-below n p = ground arith

within :
    (o : Option ℤ) (m concurrency : ℤ) (p : Pool)
    → Under o m
    → (set_limit (or_concurrency o concurrency) p).limit ≤ at_least_one m
within none m concurrency p h = absurd h
within (some l) m concurrency p h = omega (arith, set_limit-below l p, at_least_one_mono l m h)

caps_kept :
    (c : Option ℤ) (concurrency : ℤ) (rows : List QueueRow) (p : Pool)
    → All (Capped (set_limit (or_concurrency (lowest_cap c rows) concurrency) p).limit) rows
unfolding lowest_cap
caps_kept c concurrency [] p = tt
caps_kept c concurrency (r ∷ rs) p =
    (here r.max_concurrency, caps_kept (lower r.max_concurrency c) concurrency rs p)
  where
    here :
        (o : Option ℤ)
        → Meets o (set_limit (or_concurrency (lowest_cap (lower o c) rs) concurrency) p).limit
    here none = tt
    here (some m) =
        within (lowest_cap (lower (some m) c) rs) m concurrency p
          (lowest_cap-rest (lower (some m) c) rs m (lower-first m c))

-- After a refresh that read the served queues' rows, the pool's limit is within the cap of every one
-- of them, a cap below 1 counting as 1.
pub refresh_caps_pool :
    (cfg : QueueConfig) (cancelled : Bool) (rows : List QueueRow) (s : QueueState) (p : Pool)
    → All (Capped (refresh_state cfg cancelled (ok rows) s p).1.limit) rows
unfolding refresh_state
refresh_caps_pool cfg cancelled rows s p = caps_kept none cfg.concurrency rows p
