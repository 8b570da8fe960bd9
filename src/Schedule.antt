-- ===== src/Schedule.antt =====
-- intervalBuckets of internal/core/scheduler.go: the missed fires of a fixed interval. Instants and
-- intervals are unbounded here; the source's are, for spans under 292 years, the same.
pub mod Missed
use go_flywheel.Base.{
  List, [], if◌then◌else◌, ltb, suc, zero, ℕ, ◌&&◌, ◌*◌, ◌+◌, ◌-◌, ◌/◌, ◌==◌, ◌||◌, ◌∷◌,
}
use go_flywheel.Base.Int.{negsuc, pos, ℤ}
use go_flywheel.Types.{Time}

-- `time.Duration(intervalSeconds) * time.Second`, and 0 for what is not positive.
abbrev pub interval_of : ℤ → ℕ
interval_of (pos n) = n * 1000000000
interval_of (negsuc n) = 0

-- The loop that appends `start + k*interval`, for `times` values of k.
pub bucket_times : Time → ℕ → ℕ → ℕ → List Time
bucket_times start interval k zero = []
bucket_times start interval k (suc times) =
    (start + k * interval) ∷ bucket_times start interval (suc k) times

-- The first of the fires 0 … n that a limit keeps.
abbrev pub first_kept : ℤ → ℕ → ℕ
first_kept (pos limit) n = if ltb 0 limit && ltb limit (n + 1) then n + 1 - limit else 0
first_kept (negsuc limit) n = 0

unfoldable pub interval_buckets : Time → ℤ → Time → ℤ → List Time × Time
unfolding bucket_times
interval_buckets start interval_seconds now limit =
    let interval = interval_of interval_seconds in
    let n = (now - start) / interval in
    let first = first_kept limit n in
    if interval == 0 || ltb now start
    then ([], start)
    else (bucket_times start interval first (n + 1 - first), start + (n + 1) * interval)
