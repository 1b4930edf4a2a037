-- ===== src/Delivery/Repository.antt =====
-- `backend/app/modules/delivery/repository.py`: the queries, and the conditional updates on the row
-- that they name. An update answers `none` where it matches no row.
use baytna.Prelude.{
  ℕ, Option, none, some, Bool, true, false, not, ◌&&◌, ◌==◌, if◌then◌else◌, is_none,
}
use baytna.Prelude.Table.{get, find}
use baytna.Entities.{Order, DeliveryTask}
use baytna.Entities.Status.{
  ◌is◌, OrderStatus, TaskStatus, task_status, order_status, driver_status, stage_status,
  item_status, hold_status, payment_status, order_type_status, special_status, redemption_status,
}
use baytna.Session.{Db, Checked, ok, ◌>>=◌, ◌>>◌, raise_if, or_raise}

-- `ACTIVE_MISSION_STATUSES`
abbrev pub is_active : TaskStatus → Bool
is_active TaskStatus.to_pickup = true
is_active TaskStatus.at_pickup = true
is_active TaskStatus.picked_up = true
is_active TaskStatus.to_customer = true
is_active TaskStatus.delivery_issue = true
is_active _ = false

abbrev pub has_driver : ℕ → Option ℕ → Bool
has_driver d none = false
has_driver d (some e) = e == d

-- `DeliveryRepository.active_task_for_driver`, of which the transitions ask only whether it is None.
unfoldable pub active_task_for_driver : ℕ → Db → Option DeliveryTask
active_task_for_driver d db = find (λ t. has_driver d t.driver_id && is_active t.status) db.tasks

-- `UPDATE delivery_tasks ... WHERE status = 'unassigned' AND driver_id IS NULL` on the row that is
-- named; `none` where no row matches.
unfoldable pub claim_task : ℕ → DeliveryTask → Option DeliveryTask
claim_task driver_id t =
    if t.status is TaskStatus.unassigned && is_none t.driver_id
    then some (record t { driver_id = some driver_id; status = TaskStatus.to_pickup })
    else none

-- `UPDATE delivery_tasks ... WHERE driver_id AND status = expected`
unfoldable pub transition_task : ℕ → TaskStatus → TaskStatus → DeliveryTask → Option DeliveryTask
transition_task driver_id expected new t =
    if has_driver driver_id t.driver_id && t.status is expected
    then some (record t { status = new })
    else none

-- `UPDATE orders ... WHERE status = expected`, which the chef's repository has too.
unfoldable pub transition_order : ℕ → OrderStatus → OrderStatus → Order → Option Order
transition_order now expected new o =
    if o.status is expected then some (record o { status = new; updated_at = now }) else none

-- `_owned_task`
abbrev pub owned_task : ℕ → ℕ → Db → Checked DeliveryTask
owned_task driver_id task_id db = do
  task ← or_raise 404 "mission_not_found" (get task_id db.tasks)
  raise_if (not (has_driver driver_id task.driver_id)) 404 "mission_not_found"
  ok task
