-- ===== src/Examples/Sweeps.antt =====
-- The sweep's theorems at concrete inputs.
use go_flywheel.Base.{any, false, refl, ◌≡◌, ◌≢◌}
use go_flywheel.Driver.Sweep.{
  SweepLib, batch_rows, expired, leases_before, reclaim_case, reclaim_table,
}
use go_flywheel.Driver.Sweep.Batch.{drained, sweep, unfinished}
use go_flywheel.Driver.Sweep.Batch.Ends.{SweepLaws, sweep_drains, sweep_ends}
use go_flywheel.Driver.Sweep.Batch.Safe.{sweep-TableOk}
use go_flywheel.Driver.Sweep.Dialects.{reclaim_dialects_agree}
use go_flywheel.Examples.Data.{context, family, family-TableOk, options}
use go_flywheel.Examples.Sort.{lease_order-OrderLaws, length-sort_rows, sort_rows}
use go_flywheel.Store.Wf.{TableOk}

abbrev pub sorts : SweepLib
sorts = record {
  order = sort_rows leases_before;
  sort_stable = sort_rows;
  text_before = λ a b. false;
  sort_texts = λ xs. xs;
}

pub sorts-SweepLaws : SweepLaws sorts
sorts-SweepLaws = record { by_lease = lease_order-OrderLaws; same_length = length-sort_rows }

reclaim_dialects_agree_example :
    reclaim_table options family.runs 2000 (batch_rows sorts 2000 2 family.jobs) family.jobs
    ≡ reclaim_case options family.runs 2000 (batch_rows sorts 2000 2 family.jobs) family.jobs
reclaim_dialects_agree_example =
    reclaim_dialects_agree sorts lease_order-OrderLaws options family.runs 2000 2 family.jobs
      family-TableOk.unique

sweep-TableOk_example : TableOk (sweep sorts context options 2000 (λ n. false) family).db.jobs
sweep-TableOk_example =
    sweep-TableOk sorts lease_order-OrderLaws options 2000 context (λ n. false) family
      family-TableOk

sweep_ends_example : (sweep sorts context options 2000 (λ n. false) family).stop ≢ unfinished
sweep_ends_example =
    sweep_ends sorts sorts-SweepLaws options 2000 context (λ n. false) family family-TableOk

family_drained : (sweep sorts context options 2000 (λ n. false) family).stop ≡ drained
unfolding sweep go_flywheel.Driver.Sweep.Batch.sweep_loop go_flywheel.Driver.Sweep.Batch.after_batch
    go_flywheel.Driver.Sweep.Batch.sweep_batch go_flywheel.Driver.Sweep.reclaim_expired batch_rows
    go_flywheel.Driver.Opts.sweep_batch_size
family_drained = refl

sweep_drains_example :
    any (expired 2000) (sweep sorts context options 2000 (λ n. false) family).db.jobs ≡ false
sweep_drains_example =
    sweep_drains sorts sorts-SweepLaws options 2000 context (λ n. false) family family-TableOk
      family_drained
