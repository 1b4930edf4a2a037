-- ===== src/Timing.antt =====
-- `backend/app/modules/delivery_timing/service.py`: how a delivery compares with its promise.
pub mod Lateness
pub mod Promise
use baytna.Prelude.{ℕ, ◌+◌, ◌-◌, ◌*◌, ◌/◌, Option, none, some, leb, if◌then◌else◌}
use baytna.Entities.{Order, DeliveryTask}
use baytna.Entities.Status.{Timing, on_time, late, unmeasurable}
use baytna.Settings.{second, minute}

pub record DeliveryTimingResult : Type 0 where
  pub status : Timing
  pub late_by_minutes : Option ℕ

-- `max(1, n)`
abbrev pub at_least_one : ℕ → ℕ
at_least_one n = if leb n 0 then 1 else n

-- `evaluate`, on the end of the promised window and the instant of delivery.
unfoldable pub evaluate : Option ℕ → ℕ → DeliveryTimingResult
evaluate none delivered_at = record { status = unmeasurable; late_by_minutes = none }
evaluate (some deadline) delivered_at =
    if leb delivered_at deadline
    then record { status = on_time; late_by_minutes = some 0 }
    else record {
      status = late;
      late_by_minutes = some (at_least_one ((delivered_at - deadline + 59 * second) / minute));
    }

-- `stamp_task`
unfoldable pub stamp_task : Order → DeliveryTask → ℕ → DeliveryTask
stamp_task order task delivered_at =
    let result : DeliveryTimingResult =
      evaluate order.promised_delivery_window_end_at delivered_at in
    record task {
      delivery_timing_status = some result.status;
      late_by_minutes = result.late_by_minutes;
    }
