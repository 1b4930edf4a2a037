-- ===== src/Fulfillment/Stages.antt =====
-- Cooking, packaging and readiness (`backend/app/modules/fulfillment/service.py`).
use baytna.Prelude.{ℕ, String, not, ◌&&◌, ◌||◌, Option, none, some, if◌then◌else◌, is_some}
use baytna.Prelude.Table.{get, put}
use baytna.Entities.{Order, ChefOrderFulfillment}
use baytna.Entities.Status.{
  ◌is◌, OrderStatus, Stage, order_status, task_status, driver_status, stage_status, item_status,
  hold_status, payment_status, order_type_status, special_status, redemption_status,
}
use baytna.Delivery.Dispatch.{task_for_order, add_task}
use baytna.Delivery.Repository.{transition_order}
use baytna.Fulfillment.{order_for_chef}
use baytna.Journal.{order_event, audit, enqueue, emit}
use baytna.Session.{Db, Checked, ◌>>=◌, ◌>>◌, raise_if, or_raise, ok}

-- A note replaces the row's one where the request brings one.
abbrev pub noted : Option String → ChefOrderFulfillment → ChefOrderFulfillment
noted none f = f
noted (some text) f = record f { chef_note = some text }

-- `start_preparing`, with `_progress`, which has no other caller.
unfoldable pub start_preparing : ℕ → ℕ → ℕ → Option String → Db → Checked Db
unfolding transition_order
start_preparing now chef_id order_id note db = do
  o ← or_raise 404 "order_not_found" (order_for_chef chef_id order_id db)
  f ← or_raise 409 "fulfillment_missing" (get order_id db.fulfillments)
  (if o.status is OrderStatus.preparing && f.stage is Stage.preparing then ok db else do
    raise_if (not (o.status is OrderStatus.accepted_by_chef) || not (f.stage is Stage.accepted)) 409
        "order_invalid_transition"
    o' ←
        or_raise 409 "order_state_changed"
          (transition_order now OrderStatus.accepted_by_chef OrderStatus.preparing o)
    let db1 : Db = record db {
      orders = put order_id o' db.orders;
      fulfillments =
          put order_id
            (noted note (record f { stage = Stage.preparing; preparation_started_at = some now }))
            db.fulfillments;
    }
    let db2 =
        order_event now order_id (some OrderStatus.accepted_by_chef) OrderStatus.preparing
          (some chef_id) "preparation_started" db1
    ok (audit "chef.order.preparing" (some chef_id) "order" order_id db2))

unfoldable pub start_packaging : ℕ → ℕ → ℕ → Option String → Db → Checked Db
start_packaging now chef_id order_id note db = do
  o ← or_raise 404 "order_not_found" (order_for_chef chef_id order_id db)
  f ← or_raise 409 "fulfillment_missing" (get order_id db.fulfillments)
  raise_if (not (o.status is OrderStatus.preparing)) 409 "order_not_preparing"
  (if f.stage is Stage.packaging then ok db else do
    raise_if (not (f.stage is Stage.preparing)) 409 "order_cannot_package"
    let db1 : Db = record db {
      fulfillments =
          put order_id
            (noted note (record f { stage = Stage.packaging; packaging_started_at = some now }))
            db.fulfillments;
    }
    let db2 =
        order_event now order_id (some OrderStatus.preparing) OrderStatus.preparing (some chef_id)
          "packaging_started" db1
    ok (audit "chef.order.packaging" (some chef_id) "order" order_id db2))

-- The delivery task that a ready order gets, unless it has one.
unfoldable pub add_missing_task : ℕ → Order → Db → Db
unfolding task_for_order
add_missing_task order_id o db =
    if is_some (task_for_order order_id db) then db else add_task order_id o db

-- What `ready_for_pickup` writes before it looks for a delivery task.
unfoldable pub mark_ready :
    ℕ → ℕ → ℕ → Option String → Order → ChefOrderFulfillment → Db → Checked Db
unfolding transition_order
mark_ready now chef_id order_id note o f db = do
  o' ←
      or_raise 409 "order_state_changed"
        (transition_order now OrderStatus.preparing OrderStatus.ready_for_pickup o)
  let db1 : Db = record db {
    orders = put order_id o' db.orders;
    fulfillments =
        put order_id (noted note (record f { stage = Stage.ready; ready_at = some now }))
          db.fulfillments;
  }
  let db2 =
      order_event now order_id (some OrderStatus.preparing) OrderStatus.ready_for_pickup
        (some chef_id) "ready_for_pickup" db1
  let db3 = audit "chef.order.ready_for_pickup" (some chef_id) "order" order_id db2
  let db4 = emit o.customer_id "order_ready" "order-ready" order_id db3
  ok (enqueue "order.ready_for_pickup" "order" order_id db4)

unfoldable pub ready_for_pickup : ℕ → ℕ → ℕ → Option String → Db → Checked Db
ready_for_pickup now chef_id order_id note db = do
  o ← or_raise 404 "order_not_found" (order_for_chef chef_id order_id db)
  f ← or_raise 409 "fulfillment_missing" (get order_id db.fulfillments)
  (if o.status is OrderStatus.ready_for_pickup && f.stage is Stage.ready then ok db else do
    raise_if
        (not (o.status is OrderStatus.preparing)
          || not (f.stage is Stage.preparing || f.stage is Stage.packaging))
        409 "order_cannot_mark_ready"
    marked ← mark_ready now chef_id order_id note o f db
    ok (add_missing_task order_id o marked))
