-- ===== src/Delivery/Dispatch.antt =====
-- Tasks for ready orders, the driver's availability and the acceptance of a mission
-- (`backend/app/modules/delivery/service.py`).
use baytna.Prelude.{
  ℕ, ◌+◌, Option, none, some, Bool, not, ◌&&◌, ◌==◌, if◌then◌else◌, is_some, is_none,
}
use baytna.Prelude.Table.{get, put, find, Table, empty, row}
use baytna.Entities.{Order, DeliveryTask}
use baytna.Entities.Status.{
  ◌is◌, OrderStatus, order_status, TaskStatus, DriverStatus, driver_status, task_status,
  stage_status, item_status, hold_status, payment_status, order_type_status, special_status,
  redemption_status,
}
use baytna.Delivery.Repository.{active_task_for_driver, claim_task, transition_order}
use baytna.Journal.{order_event, audit, emit}
use baytna.Session.{Db, Checked, ok, ◌>>=◌, ◌>>◌, raise_if, or_raise, settle}

-- `set_availability`
unfoldable pub set_availability : ℕ → Bool → Db → Checked Db
set_availability driver_id wanted db = do
  profile ← or_raise 403 "driver_profile_missing" (get driver_id db.drivers)
  let busy = is_some (active_task_for_driver driver_id db)
  raise_if (busy && not wanted) 409 "driver_has_active_mission"
  let status =
      if busy
      then DriverStatus.on_mission
      else if wanted
      then DriverStatus.available
      else DriverStatus.offline
  ok (
      audit "driver.availability.changed" (some driver_id) "driver_profile" driver_id
        (record db { drivers = put driver_id (record profile { status = status }) db.drivers }))

-- `DeliveryTaskEntity(order_id, chef_id, status="unassigned")`
abbrev pub new_task : ℕ → Order → DeliveryTask
new_task order_id order = record {
  order_id = order_id;
  chef_id = order.chef_id;
  driver_id = none;
  status = TaskStatus.unassigned;
  accepted_at = none;
  arrived_pickup_at = none;
  picked_up_at = none;
  route_started_at = none;
  delivered_at = none;
  delivery_timing_status = none;
  late_by_minutes = none;
  delivery_proof_type = none;
  delivery_proof_reference = none;
  delivery_proof_media_asset_id = none;
  issue_from_status = none;
  issue_code = none;
  issue_note = none;
}

-- `task_for_order`
unfoldable pub task_for_order : ℕ → Db → Option DeliveryTask
task_for_order order_id db = find (λ t. t.order_id == order_id) db.tasks

abbrev pub add_task : ℕ → Order → Db → Db
add_task order_id order db = record db {
  tasks = put db.next_id (new_task order_id order) db.tasks;
  next_id = db.next_id + 1;
}

-- `ensure_task_for_ready_order`
unfoldable pub ensure_task_for_ready_order : ℕ → Db → Checked Db
ensure_task_for_ready_order order_id db = do
  order ← or_raise 404 "order_not_found" (get order_id db.orders)
  (if is_some (task_for_order order_id db) then ok db else do
    raise_if (not (order.status is OrderStatus.ready_for_pickup)) 409 "delivery_task_not_ready"
    ok (add_task order_id order db))

-- The orders of the table's rows that are ready and have no task get one.
unfoldable pub sync_tasks : Table Order → Db → Db
sync_tasks empty db = db
sync_tasks (row order_id o rest) db = sync_tasks rest (
    if o.status is OrderStatus.ready_for_pickup && is_none (task_for_order order_id db)
    then settle db (ensure_task_for_ready_order order_id db)
    else db)

-- `sync_ready_orders`
unfoldable pub sync_ready_orders : Db → Db
sync_ready_orders db = sync_tasks db.orders db

unfoldable pub accept_mission : ℕ → ℕ → ℕ → Db → Checked Db
unfolding claim_task transition_order
accept_mission now driver_id task_id db = do
  profile ← or_raise 403 "driver_profile_missing" (get driver_id db.drivers)
  raise_if (not (profile.status is DriverStatus.available)) 409 "driver_not_available"
  raise_if (is_some (active_task_for_driver driver_id db)) 409 "driver_has_active_mission"
  task ← or_raise 404 "mission_not_found" (get task_id db.tasks)
  order ← or_raise 409 "order_not_ready_for_driver" (get task.order_id db.orders)
  raise_if (not (order.status is OrderStatus.ready_for_pickup)) 409 "order_not_ready_for_driver"
  raise_if (not (is_some (get task.order_id db.order_addresses))) 409 "delivery_address_missing"
  task' ← or_raise 409 "mission_already_claimed" (claim_task driver_id task)
  order' ←
      or_raise 409 "order_state_changed"
        (transition_order now OrderStatus.ready_for_pickup OrderStatus.assigned_to_driver order)
  let db1 : Db = record db {
    tasks = put task_id (record task' { accepted_at = some now }) db.tasks;
    orders = put task.order_id order' db.orders;
    drivers = put driver_id (record profile { status = DriverStatus.on_mission }) db.drivers;
  }
  let db2 =
      order_event now task.order_id (some OrderStatus.ready_for_pickup)
        OrderStatus.assigned_to_driver (some driver_id) "driver_assigned" db1
  let db3 = audit "driver.mission.accepted" (some driver_id) "delivery_task" task_id db2
  ok (emit order.customer_id "driver_assigned" "driver-assigned" task.order_id db3)
