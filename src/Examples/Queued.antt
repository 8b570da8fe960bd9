-- ===== src/Examples/Queued.antt =====
-- The queues' theorems at concrete inputs.
use go_flywheel.Base.{
  All, List, [], any, false, none, not, refl, some, str_eq, str_mem, ◌&&◌, ◌∷◌, ◌≡◌,
}
use go_flywheel.Base.Int.{pos}
use go_flywheel.Controls.{Caller}
use go_flywheel.Driver.Claim.{ClaimRequest, claims_before, dequeue}
use go_flywheel.Examples.Data.{context, family, request}
use go_flywheel.Examples.Sort.{claim_order-OrderLaws, sort_rows}
use go_flywheel.Pool.{new_pool}
use go_flywheel.Queues.{
  Actor, QueueConfig, QueueDb, QueueRow, QueueState, claimable, pause_queue, queue_state_refresh,
  refresh_state, served_rows,
}
use go_flywheel.Queues.Caps.{Capped, refresh_caps_pool}
use go_flywheel.Queues.Idle.{paused_queue_rests}
use go_flywheel.Queues.Paused.{claimable_exact, is_paused}
use go_flywheel.Types.{ok}

abbrev on_call : Caller
on_call = record { ctx = context; refused = none; audit_hook = λ entries. none }

abbrev operator : Actor
operator = record { type = "user"; id = "ada"; reason = "upgrade" }

abbrev capped_row : QueueRow
capped_row = record {
  queue = "mail";
  paused_at = none;
  paused_by_type = "";
  paused_by_id = "";
  paused_reason = "";
  updated_at = 1000;
  max_concurrency = some (pos 2);
}

abbrev before : QueueDb
before = record { queues = capped_row ∷ []; db = family }

abbrev config : QueueConfig
config = record {
  queues = "default" ∷ "mail" ∷ [];
  concurrency = pos 8;
  queue_state_refresh = pos 0;
}

abbrev unread : QueueState
unread = record { paused = []; read = false; last_try = 0; failing = false }

paused_run : (d : QueueDb) × (pause_queue on_call operator before "default" ≡ ok d)
unfolding pause_queue go_flywheel.Queues.change_queues go_flywheel.Queues.seed_queue
    go_flywheel.Controls.record_audit
paused_run = (_, refl)

abbrev open_request : List QueueRow → ClaimRequest
open_request rows = record request {
  queues = (claimable config 3000 false (ok (served_rows config rows)) unread (new_pool (pos 8))).1;
}

claimable_exact_example :
    str_mem "default"
      (claimable config 3000 false
        (ok (served_rows config paused_run.0.queues))
        unread
        (new_pool (pos 8))).1
    ≡ (str_mem "default" config.queues && not (is_paused "default" paused_run.0.queues))
unfolding queue_state_refresh
claimable_exact_example =
    claimable_exact config 3000 false paused_run.0.queues unread (new_pool (pos 8)) "default" refl
      refl

paused_queue_rests_example :
    any
      (λ r. str_eq r.queue "default")
      (dequeue (sort_rows claims_before) context family (open_request paused_run.0.queues)).1
    ≡ false
unfolding queue_state_refresh
paused_queue_rests_example =
    paused_queue_rests (sort_rows claims_before) claim_order-OrderLaws context family
      (open_request paused_run.0.queues) on_call operator before paused_run.0 "default" config 3000
      false unread (new_pool (pos 8)) paused_run.1 refl refl refl

refresh_caps_pool_example :
    All
      (Capped (refresh_state config false (ok before.queues) unread (new_pool (pos 8))).1.limit)
      before.queues
refresh_caps_pool_example = refresh_caps_pool config false before.queues unread (new_pool (pos 8))
