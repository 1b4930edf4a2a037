-- ===== src/Fulfillment.antt =====
-- The chef's path from a confirmed order to one that is ready for pickup
-- (`backend/app/modules/fulfillment`).
pub mod Rejection
pub mod Chain
pub mod Stages
pub mod Ready
pub mod Refusal
pub mod Shortfall
pub mod Queue
use baytna.Prelude.{
  ℕ, ◌+◌, ◌*◌, String, Bool, false, not, ◌&&◌, ◌||◌, Option, none, some, List, [], ◌∷◌, leb, ◌==◌,
  if◌then◌else◌, is_none,
}
use baytna.Prelude.Table.{get, put, Table, empty, row}
use baytna.Entities.{Order, OrderStatusEvent, ChefOrderFulfillment}
use baytna.Entities.Status.{
  ◌is◌, OrderStatus, Stage, order_status, task_status, driver_status, stage_status, item_status,
  hold_status, payment_status, order_type_status, special_status, redemption_status,
}
use baytna.Delivery.Repository.{transition_order}
use baytna.Journal.{order_event, audit, emit}
use baytna.Session.{Db, Checked, ◌>>=◌, ◌>>◌, raise_if, or_raise, ok, err}
use baytna.Settings.{Settings, minute}

pub record AcceptRequest : Type 0 where
  pub estimated_ready_at : Option ℕ
  pub chef_note : Option String

-- `order_for_chef`
unfoldable pub order_for_chef : ℕ → ℕ → Db → Option Order
order_for_chef chef_id order_id db = elim (get order_id db.orders) [
  | none ↦ none
  | some o ↦ if o.chef_id == chef_id then some o else none
]

-- The stage of a fulfillment that is made for an order in the status.
abbrev pub stage_for : OrderStatus → Option Stage
stage_for OrderStatus.confirmed = some Stage.new
stage_for OrderStatus.accepted_by_chef = some Stage.accepted
stage_for OrderStatus.preparing = some Stage.preparing
stage_for OrderStatus.ready_for_pickup = some Stage.ready
stage_for _ = none

-- The time of the latest confirmation among the order's events, which stand newest first.
unfoldable pub confirmed_at : ℕ → List OrderStatusEvent → Option ℕ
confirmed_at order_id [] = none
confirmed_at order_id (e ∷ es) =
    if e.order_id == order_id && e.to_status is OrderStatus.confirmed
    then some e.created_at
    else confirmed_at order_id es

abbrev pub otherwise : ℕ → Option ℕ → ℕ
otherwise n none = n
otherwise n (some m) = m

-- `create_fulfillment`, with the stage that follows it.
abbrev pub new_fulfillment : ℕ → Stage → ℕ → ChefOrderFulfillment
new_fulfillment chef_id stage deadline = record {
  chef_id = chef_id;
  stage = stage;
  acceptance_deadline_at = some deadline;
  estimated_ready_at = none;
  accepted_at = none;
  preparation_started_at = none;
  packaging_started_at = none;
  ready_at = none;
  rejected_at = none;
  rejection_reason = none;
  chef_note = none;
}

-- `ensure_for_confirmed_order` for an order that is found: the row that exists, or the one it adds.
unfoldable pub ensure_for_confirmed_order : Settings → ℕ → Order → Db → Checked ChefOrderFulfillment
ensure_for_confirmed_order settings order_id o db = elim (get order_id db.fulfillments) [
  | some f ↦ ok f
  | none ↦ do
    stage ← or_raise 409 "fulfillment_not_available" (stage_for o.status)
    ok (
        new_fulfillment o.chef_id stage (
          otherwise o.updated_at (confirmed_at order_id db.order_events)
          + settings.chef_acceptance_sla_minutes * minute))
]

-- `detail`, which adds a missing row.
unfoldable pub detail : Settings → ℕ → ℕ → Db → Checked Db
detail settings chef_id order_id db = do
  o ← or_raise 404 "order_not_found" (order_for_chef chef_id order_id db)
  f ← ensure_for_confirmed_order settings order_id o db
  ok (record db { fulfillments = put order_id f db.fulfillments })

abbrev pub not_after : ℕ → Option ℕ → Bool
not_after now none = false
not_after now (some t) = leb t now

-- `accept`. The row of an order that is accepted already is not stored by this call.
unfoldable pub accept : Settings → ℕ → ℕ → ℕ → AcceptRequest → Db → Checked Db
unfolding ensure_for_confirmed_order transition_order
accept settings now chef_id order_id payload db = do
  o ← or_raise 404 "order_not_found" (order_for_chef chef_id order_id db)
  f ← ensure_for_confirmed_order settings order_id o db
  (if o.status is OrderStatus.accepted_by_chef && f.stage is Stage.accepted then ok db else do
    raise_if (not (o.status is OrderStatus.confirmed) || not (f.stage is Stage.new)) 409
        "order_cannot_accept"
    raise_if (not_after now payload.estimated_ready_at) 422 "estimated_ready_must_be_future"
    o' ←
        or_raise 409 "order_state_changed"
          (transition_order now OrderStatus.confirmed OrderStatus.accepted_by_chef o)
    let db1 : Db = record db {
      orders = put order_id o' db.orders;
      fulfillments =
          put order_id
            (record f {
              stage = Stage.accepted;
              accepted_at = some now;
              estimated_ready_at = payload.estimated_ready_at;
              chef_note = payload.chef_note;
            })
            db.fulfillments;
    }
    let db2 =
        order_event now order_id (some OrderStatus.confirmed) OrderStatus.accepted_by_chef
          (some chef_id) "chef_accepted" db1
    let db3 = audit "chef.order.accepted" (some chef_id) "order" order_id db2
    ok (emit o.customer_id "chef_accepted" "chef-accepted" order_id db3))

-- A row that is made for an order in the queue; an order in another status gets none.
abbrev pub stored : ℕ → Checked ChefOrderFulfillment → Db → Db
stored order_id (ok f) db = record db { fulfillments = put order_id f db.fulfillments }
stored order_id (err e) db = db

-- The orders of the chef without a row get one, so far as their status allows.
unfoldable pub sync_rows : Settings → ℕ → Table Order → Db → Db
sync_rows settings chef_id empty db = db
sync_rows settings chef_id (row order_id o rest) db = sync_rows settings chef_id rest (
    if o.chef_id == chef_id && is_none (get order_id db.fulfillments)
    then stored order_id (ensure_for_confirmed_order settings order_id o db) db
    else db)

-- `sync_queue`
unfoldable pub sync_queue : Settings → ℕ → Db → Db
sync_queue settings chef_id db = sync_rows settings chef_id db.orders db
