-- ===== src/Driver/Opts.antt =====
-- DriverOpts of internal/core/driver.go: an option that is not positive takes its default.
use go_flywheel.Base.{arith, suc, zero, ℕ, ◌<◌}
use go_flywheel.Base.Int.{negsuc, pos, ℤ}

pub record DriverOpts : Type 0 where
  pub sweep_batch_size : ℤ
  pub follow_up_chunk_size : ℤ
  pub follow_up_limit : ℤ
  pub max_output_bytes : ℤ
  pub barrier_max_children : ℤ
  pub max_crashes : ℤ

abbrev or_default : ℤ → ℕ → ℕ
or_default (pos zero) d = d
or_default (pos (suc n)) d = suc n
or_default (negsuc n) d = d

unfoldable pub sweep_batch_size : DriverOpts → ℕ
sweep_batch_size o = or_default o.sweep_batch_size 1000

unfoldable pub follow_up_chunk_size : DriverOpts → ℕ
follow_up_chunk_size o = or_default o.follow_up_chunk_size 500

unfoldable pub follow_up_limit : DriverOpts → ℕ
follow_up_limit o = or_default o.follow_up_limit 10000

pub max_output_bytes : DriverOpts → ℕ
max_output_bytes o = or_default o.max_output_bytes 65536

pub barrier_max_children : DriverOpts → ℕ
barrier_max_children o = or_default o.barrier_max_children 10000

or_default_pos : (v : ℤ) (d : ℕ) → 0 < d → 0 < or_default v d
or_default_pos (pos zero) d h = h
or_default_pos (pos (suc n)) d h = omega arith
or_default_pos (negsuc n) d h = h

pub follow_up_chunk_size_pos : (o : DriverOpts) → 0 < follow_up_chunk_size o
unfolding follow_up_chunk_size
follow_up_chunk_size_pos o = or_default_pos o.follow_up_chunk_size 500 (omega arith)

pub sweep_batch_size_pos : (o : DriverOpts) → 0 < sweep_batch_size o
unfolding sweep_batch_size
sweep_batch_size_pos o = or_default_pos o.sweep_batch_size 1000 (omega arith)
