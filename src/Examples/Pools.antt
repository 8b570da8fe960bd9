-- ===== src/Examples/Pools.antt =====
-- The pool's and the scheduler's theorems at concrete inputs.
use go_flywheel.Base.{arith, length, refl, some, ◌+◌, ◌<◌, ◌≡◌, ◌≤◌, ◌⊎◌}
use go_flywheel.Base.Int.{pos, ◌≤ℤ◌}
use go_flywheel.Pool.{Pool, admit, admit_locked, at_least_one, new_pool, release, try_reserve}
use go_flywheel.Pool.Steps.{
  Fine, admits, made, pool_never_panics, releases, then_step, try_reserve-takes,
}
use go_flywheel.Schedule.{interval_buckets, interval_of}
use go_flywheel.Schedule.Missed.{Chain, head_or, interval_buckets_lem}

abbrev busy_pool : Pool
busy_pool = admit (pos 2) (new_pool (pos 3))

pool_never_panics_example : Fine (release (pos 5) busy_pool)
pool_never_panics_example = pool_never_panics (pos 3) (release (pos 5) busy_pool) (
    then_step busy_pool (release (pos 5) busy_pool)
      (then_step (new_pool (pos 3)) (some busy_pool) made (admits (pos 2))) (releases (pos 5)))

one_free : try_reserve (pos 4) busy_pool ≡ some (admit_locked 1 busy_pool, 1)
unfolding try_reserve admit admit_locked new_pool
one_free = refl

try_reserve-takes_example :
    (admit_locked 1 busy_pool ≡ admit_locked 1 busy_pool)
    × (1 ≤ 1)
    × (1 ≤ at_least_one (pos 4))
    × (busy_pool.held + 1 ≤ busy_pool.limit)
try_reserve-takes_example =
    try_reserve-takes (pos 4) busy_pool (admit_locked 1 busy_pool) 1 one_free

interval_buckets_lem_example :
    let (missed, next_run) = interval_buckets 1000 (pos 60) 250000000000 (pos 2) in
    Chain (interval_of (pos 60)) next_run missed
    × (250000000000 < next_run)
    × (next_run ≤ 250000000000 + interval_of (pos 60))
    × (0 < length missed)
    × ((head_or next_run missed ≡ 1000) × ((pos 2 ≤ℤ pos 0) ⊎ (pos (length missed) ≤ℤ pos 2))
        ⊎ (pos (length missed) ≡ pos 2))
interval_buckets_lem_example =
    interval_buckets_lem 1000 250000000000 (pos 60) (pos 2) (omega arith) (omega arith)
