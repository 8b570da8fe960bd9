-- ===== src/Pool.antt =====
-- The worker pool of internal/core/runner.go. The mutex makes each method one step. A channel is
-- whether it is closed; `freed` is the number of the current one, since the pool replaces it in the
-- step that closes it. Closing a closed channel is a panic, `none` here.
pub mod Steps
use go_flywheel.Base.{
  Bool, Option, false, if◌then◌else◌, leb, ltb, none, some, suc, true, zero, ℕ, ◌+◌, ◌-◌, ◌==◌,
}
use go_flywheel.Base.Int.{negsuc, pos, ℤ}

pub record Pool : Type 0 where
  pub size : ℕ
  pub inline : Bool
  pub limit : ℕ
  pub held : ℕ
  pub running : ℕ
  pub idle_closed : Bool
  pub freed : ℕ

abbrev pub min_ℕ : ℕ → ℕ → ℕ
min_ℕ a b = if leb a b then a else b

-- An `int` argument that is not positive is raised to 1.
abbrev pub at_least_one : ℤ → ℕ
at_least_one (pos zero) = 1
at_least_one (pos (suc n)) = suc n
at_least_one (negsuc n) = 1

unfoldable pub new_pool : ℤ → Pool
new_pool limit = record {
  size = at_least_one limit;
  inline = at_least_one limit == 1;
  limit = at_least_one limit;
  held = 0;
  running = 0;
  idle_closed = true;
  freed = 0;
}

unfoldable pub set_limit : ℤ → Pool → Pool
set_limit n p =
    let m = min_ℕ (at_least_one n) p.size in
    if m == p.limit
    then p
    else record p { limit = m; freed = if ltb p.limit m then suc p.freed else p.freed }

unfoldable pub admit_locked : ℕ → Pool → Pool
admit_locked n p = record p {
  idle_closed = if p.held == 0 then false else p.idle_closed;
  held = p.held + n;
}

-- One turn of reserve's loop: the slots taken, or `none` where it waits for `freed`.
unfoldable pub try_reserve : ℤ → Pool → Option (Pool × ℕ)
try_reserve want p =
    let n = min_ℕ (at_least_one want) (p.limit - p.held) in
    if ltb p.held p.limit then some (admit_locked n p, n) else none

unfoldable pub admit : ℤ → Pool → Pool
admit (pos zero) p = p
admit (pos (suc n)) p = admit_locked (suc n) p
admit (negsuc n) p = p

-- `close(p.idle)`
abbrev pub close_idle : Pool → Option Pool
close_idle p = if p.idle_closed then none else some (record p { idle_closed = true })

abbrev pub release_some : ℕ → Pool → Option Pool
release_some n p =
    if n == 0
    then some p
    else (let q = record p { held = p.held - n; freed = suc p.freed } in
        if q.held == 0 then close_idle q else some q)

unfoldable pub release : ℤ → Pool → Option Pool
release (pos zero) p = some p
release (pos (suc n)) p = release_some (min_ℕ (suc n) p.held) p
release (negsuc n) p = some p

-- The two halves of start: before its function runs, and after.
unfoldable pub start_run : Pool → Pool
start_run p = record p { running = suc p.running }

unfoldable pub end_run : Pool → Option Pool
end_run p = release (pos 1) (record p { running = p.running - 1 })

-- What start has done to the pool when it returns: an inline pool has run the function by then.
unfoldable pub start : Pool → Option Pool
unfolding start_run end_run
start p = if p.inline then end_run (start_run p) else some (start_run p)
