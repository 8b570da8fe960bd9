-- ===== src/Examples/Inserts.antt =====
-- The inserts' theorems at concrete inputs.
use go_flywheel.Base.{[], false, none, refl, ◌∷◌, ◌≡◌}
use go_flywheel.Base.Int.{pos}
use go_flywheel.Examples.Data.{context, family}
use go_flywheel.Insert.Client.{insert, landed}
use go_flywheel.Insert.Client.Safe.{InsertEnd, insert-InsertEnd}
use go_flywheel.Insert.Row.{InsertOpts}
use go_flywheel.Rows.{Db}
use go_flywheel.Types.{InsertSource, ok}

abbrev keyed : InsertOpts
keyed = record {
  queue = "";
  unique_key = "once";
  unique_active_key = "";
  schedule_at = none;
  parent = none;
  priority = pos 0;
  executor_class = "";
  max_attempts = pos 0;
  timeout = pos 0;
  on_tx = false;
  request_id = "";
  tags = "images" ∷ [];
  metadata = [];
}

insert_run :
    (d : Db) × (insert context family "resize" [] keyed InsertSource.client ""
      ≡ ok (d, landed "first"))
unfolding insert go_flywheel.Insert.Stamp.stamp_row go_flywheel.Insert.Conflict.before_create
    go_flywheel.Insert.Row.build_row go_flywheel.Insert.Conflict.clash
insert_run = (_, refl)

insert-InsertEnd_example :
    InsertEnd family "first" "resize" [] "once" "" (insert_run.0, landed "first")
insert-InsertEnd_example =
    insert-InsertEnd context family "resize" [] keyed InsertSource.client ""
      (insert_run.0, landed "first") refl insert_run.1
