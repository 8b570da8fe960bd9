-- ===== src/Examples/Reached.antt =====
-- The reachable databases' theorems at concrete inputs.
use go_flywheel.Base.{[], false, none, refl, ◌≡◌}
use go_flywheel.Base.Int.{pos}
use go_flywheel.Driver.Claim.{claims_before, dequeue}
use go_flywheel.Examples.Data.{context, options, request}
use go_flywheel.Examples.Sort.{claim_order-OrderLaws, sort_rows}
use go_flywheel.Examples.Sweeps.{sorts, sorts-SweepLaws}
use go_flywheel.Insert.Client.{insert, landed}
use go_flywheel.Insert.Row.{InsertOpts}
use go_flywheel.Rows.{Db}
use go_flywheel.Runtime.{Commit, Reach, Setting, after, claims, empty_db, fresh, inserts}
use go_flywheel.Runtime.Lifecycle.{commits_follow_lifecycle, effects}
use go_flywheel.Runtime.Wellformed.{Reach-TableOk, SettingLaws}
use go_flywheel.Store.Evolves.{Evolves}
use go_flywheel.Store.Wf.{TableOk}
use go_flywheel.Types.{InsertSource, ok}

abbrev plain : InsertOpts
plain = record {
  queue = "";
  unique_key = "once";
  unique_active_key = "";
  schedule_at = none;
  parent = none;
  priority = pos 0;
  executor_class = "";
  max_attempts = pos 0;
  timeout = pos 0;
  on_tx = false;
  request_id = "";
  tags = [];
  metadata = [];
}

abbrev setting : Setting
setting = record { order = sort_rows claims_before; sorts = sorts; options = options }

setting-SettingLaws : SettingLaws setting
setting-SettingLaws = record {
  claims_sorted = claim_order-OrderLaws;
  sweeps_sorted = sorts-SweepLaws;
}

enqueued :
    (d : Db) × (insert context empty_db "resize" [] plain InsertSource.client ""
      ≡ ok (d, landed "first"))
unfolding insert go_flywheel.Insert.Stamp.stamp_row go_flywheel.Insert.Conflict.before_create
    go_flywheel.Insert.Row.build_row go_flywheel.Insert.Conflict.clash
enqueued = (_, refl)

one_claimed : Reach setting (dequeue (sort_rows claims_before) context enqueued.0 request).0
one_claimed =
    after enqueued.0 _
      (after empty_db enqueued.0 fresh
        (inserts context "resize" [] plain InsertSource.client "" (landed "first") enqueued.1))
      (claims context request refl)

Reach-TableOk_example :
    TableOk (dequeue (sort_rows claims_before) context enqueued.0 request).0.jobs
Reach-TableOk_example = Reach-TableOk setting setting-SettingLaws _ one_claimed

claiming :
    Commit setting enqueued.0 (dequeue (sort_rows claims_before) context enqueued.0 request).0
claiming = claims context request refl

enqueued-TableOk : TableOk enqueued.0.jobs
enqueued-TableOk = Reach-TableOk setting setting-SettingLaws enqueued.0 (
    after empty_db enqueued.0 fresh
      (inserts context "resize" [] plain InsertSource.client "" (landed "first") enqueued.1))

commits_follow_lifecycle_example :
    Evolves
      (effects setting claiming)
      enqueued.0.jobs
      (dequeue (sort_rows claims_before) context enqueued.0 request).0.jobs
commits_follow_lifecycle_example =
    commits_follow_lifecycle setting setting-SettingLaws enqueued.0
      (dequeue (sort_rows claims_before) context enqueued.0 request).0 claiming enqueued-TableOk
