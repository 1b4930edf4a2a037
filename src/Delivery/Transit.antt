-- ===== src/Delivery/Transit.antt =====
-- The driver's way to the chef and to the customer (`backend/app/modules/delivery/service.py`).
use baytna.Prelude.{ℕ, some, not, ◌&&◌, ◌||◌, if◌then◌else◌}
use baytna.Prelude.Table.{get, put}
use baytna.Entities.Status.{
  ◌is◌, OrderStatus, order_status, TaskStatus, task_status, driver_status, stage_status,
  item_status, hold_status, payment_status, order_type_status, special_status, redemption_status,
}
use baytna.Delivery.Repository.{transition_task, transition_order, owned_task}
use baytna.Journal.{order_event, audit, emit}
use baytna.Session.{Db, Checked, ok, ◌>>=◌, ◌>>◌, raise_if, or_raise, or_crash}

-- `arrive_pickup`, with `_task_only_transition`, which has no other caller.
unfoldable pub arrive_pickup : ℕ → ℕ → ℕ → Db → Checked Db
unfolding transition_task
arrive_pickup now driver_id task_id db = do
  task ← owned_task driver_id task_id db
  (if task.status is TaskStatus.at_pickup then ok db else do
    raise_if (not (task.status is TaskStatus.to_pickup)) 409 "mission_invalid_transition"
    task' ←
        or_raise 409 "mission_state_changed"
          (transition_task driver_id TaskStatus.to_pickup TaskStatus.at_pickup task)
    let db1 : Db = record db {
      tasks = put task_id (record task' { arrived_pickup_at = some now }) db.tasks;
    }
    ok (audit "driver.mission.arrived_pickup" (some driver_id) "delivery_task" task_id db1))

unfoldable pub confirm_pickup : ℕ → ℕ → ℕ → Db → Checked Db
unfolding transition_task transition_order
confirm_pickup now driver_id task_id db = do
  task ← owned_task driver_id task_id db
  order ← or_crash (get task.order_id db.orders)
  (if task.status is TaskStatus.picked_up && order.status is OrderStatus.picked_up
      then ok db
      else do
        raise_if
            (not (task.status is TaskStatus.at_pickup)
              || not (order.status is OrderStatus.assigned_to_driver))
            409 "pickup_invalid_transition"
        task' ←
            or_raise 409 "mission_state_changed"
              (transition_task driver_id TaskStatus.at_pickup TaskStatus.picked_up task)
        order' ←
            or_raise 409 "order_state_changed"
              (transition_order now OrderStatus.assigned_to_driver OrderStatus.picked_up order)
        let db1 : Db = record db {
          tasks = put task_id (record task' { picked_up_at = some now }) db.tasks;
          orders = put task.order_id order' db.orders;
        }
        let db2 =
            order_event now task.order_id (some OrderStatus.assigned_to_driver)
              OrderStatus.picked_up (some driver_id) "driver_picked_up" db1
        let db3 = audit "driver.mission.picked_up" (some driver_id) "delivery_task" task_id db2
        ok (emit order.customer_id "order_picked_up" "order-picked-up" task.order_id db3))

unfoldable pub start_delivery : ℕ → ℕ → ℕ → Db → Checked Db
unfolding transition_task transition_order
start_delivery now driver_id task_id db = do
  task ← owned_task driver_id task_id db
  order ← or_crash (get task.order_id db.orders)
  (if task.status is TaskStatus.to_customer && order.status is OrderStatus.out_for_delivery
      then ok db
      else do
        raise_if
            (not (task.status is TaskStatus.picked_up)
              || not (order.status is OrderStatus.picked_up))
            409 "delivery_invalid_transition"
        task' ←
            or_raise 409 "mission_state_changed"
              (transition_task driver_id TaskStatus.picked_up TaskStatus.to_customer task)
        order' ←
            or_raise 409 "order_state_changed"
              (transition_order now OrderStatus.picked_up OrderStatus.out_for_delivery order)
        let db1 : Db = record db {
          tasks = put task_id (record task' { route_started_at = some now }) db.tasks;
          orders = put task.order_id order' db.orders;
        }
        let db2 =
            order_event now task.order_id (some OrderStatus.picked_up) OrderStatus.out_for_delivery
              (some driver_id) "delivery_started" db1
        ok (audit "driver.mission.out_for_delivery" (some driver_id) "delivery_task" task_id db2))
