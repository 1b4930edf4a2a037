-- ===== src/Payments.antt =====
-- `backend/app/modules/payments`: how a payment's end settles its order.
pub mod Webhook
pub mod Refunds
pub mod Stock
pub mod Road
pub mod Redelivery
pub mod Intents
pub mod Payable
use baytna.Prelude.{
  ℕ, String, Bool, true, false, not, ◌&&◌, ◌||◌, Option, none, some, List, [], ◌∷◌, leb,
  if◌then◌else◌,
}
use baytna.Prelude.Table.{Table, get, put}
use baytna.Entities.{InventoryReservation, Order, ChefOrderFulfillment, Payment}
use baytna.Entities.Status.{
  ◌is◌, OrderStatus, OrderType, Stage, PaymentStatus, SpecialStatus, order_status, task_status,
  driver_status, stage_status, item_status, hold_status, payment_status, order_type_status,
  special_status, redemption_status,
}
use baytna.Benefits.{release_for_unpaid_order, apply_for_paid_order}
use baytna.Inventory.{release_where, mark_all, is_active_for, as_released, as_converted}
use baytna.Journal.{order_event, audit, enqueue, emit, special_for}
use baytna.Session.{Db, Checked, ◌>>=◌, ◌>>◌, raise_if, or_raise, ok}

abbrev pub save_payment : Payment → Db → Db
save_payment p db = record db { payments = put p.id p db.payments }

-- Whether a hold of the order is active, and whether one of those has run out.
unfoldable pub has_active : ℕ → List InventoryReservation → Bool
has_active order_id [] = false
has_active order_id (r ∷ rs) = is_active_for order_id r || has_active order_id rs

unfoldable pub has_overdue : ℕ → ℕ → List InventoryReservation → Bool
has_overdue now order_id [] = false
has_overdue now order_id (r ∷ rs) =
    (is_active_for order_id r && leb r.expires_at now) || has_overdue now order_id rs

abbrev pub has_run_out : ℕ → Option ℕ → Bool
has_run_out now none = true
has_run_out now (some t) = leb t now

abbrev pub succeeded_payment : ℕ → Payment → Payment
succeeded_payment now p = record p { status = PaymentStatus.succeeded; succeeded_at = some now }

-- The fulfillment that a paid special order gets, unless it has one.
abbrev pub scheduled_fulfillment :
    ℕ → ℕ → Order → Table ChefOrderFulfillment → Table ChefOrderFulfillment
scheduled_fulfillment now order_id o rows = elim (get order_id rows) [
  | some f ↦ rows
  | none ↦
      put order_id
        (record {
          chef_id = o.chef_id;
          stage = Stage.accepted;
          acceptance_deadline_at = none;
          estimated_ready_at = none;
          accepted_at = some now;
          preparation_started_at = none;
          packaging_started_at = none;
          ready_at = none;
          rejected_at = none;
          rejection_reason = none;
          chef_note = none;
        })
        rows
]

-- The notices that close `_apply_payment_success`.
abbrev pub announce_payment :
    ℕ → Payment → ℕ → OrderStatus → String → String → String → String → Db → Db
announce_payment now p order_id target reason outbox_type kind prefix db =
    let db1 = order_event now order_id (some OrderStatus.pending_payment) target none reason db in
    let db2 = audit "payment.succeeded" (some p.customer_id) "payment" p.id db1 in
    let db3 = enqueue "payment.succeeded" "payment" p.id db2 in
    let db4 = enqueue outbox_type "order" order_id db3 in
    emit p.customer_id kind prefix order_id db4

-- `_apply_payment_success` for a special order, whose offer must still stand.
unfoldable pub pay_special : ℕ → Payment → Order → Db → Checked Db
pay_special now p o db = do
  special ← or_raise 409 "special_order_not_awaiting_payment" (special_for p.order_id db.specials)
  raise_if (not (special.status is SpecialStatus.awaiting_payment)) 409
      "special_order_not_awaiting_payment"
  raise_if (has_run_out now special.offer_expires_at) 409 "special_order_offer_expired"
  let db1 : Db = record db {
    payments = put p.id (succeeded_payment now p) db.payments;
    orders =
        put p.order_id (record o { status = OrderStatus.accepted_by_chef; updated_at = now })
          db.orders;
    specials =
        put special.id
          (record special { status = SpecialStatus.scheduled; scheduled_at = some now })
          db.specials;
    special_events =
        record {
          special_order_id = special.id;
          from_status = some SpecialStatus.awaiting_payment;
          to_status = SpecialStatus.scheduled;
          actor_user_id = some p.customer_id;
          reason = "payment_succeeded";
        }
        ∷ db.special_events;
    fulfillments = scheduled_fulfillment now p.order_id o db.fulfillments;
  }
  ok (
      announce_payment now p p.order_id OrderStatus.accepted_by_chef
        "special_order_payment_succeeded" "special_order.scheduled" "special_order_scheduled"
        "special-order-scheduled" db1)

-- `_apply_payment_success` for a standard order, whose stock must still be held.
unfoldable pub pay_standard : ℕ → Payment → Order → Db → Checked Db
pay_standard now p o db = do
  raise_if (not (has_active p.order_id db.reservations)) 409 "inventory_hold_not_active"
  raise_if (has_overdue now p.order_id db.reservations) 409 "inventory_hold_expired"
  let db0 = apply_for_paid_order now p.order_id db
  let db1 : Db = record db0 {
    payments = put p.id (succeeded_payment now p) db0.payments;
    reservations = mark_all (is_active_for p.order_id) (as_converted now) db0.reservations;
    orders =
        put p.order_id
          (record o {
            status = OrderStatus.confirmed;
            inventory_hold_expires_at = none;
            updated_at = now;
          })
          db0.orders;
  }
  ok (
      announce_payment now p p.order_id OrderStatus.confirmed "payment_succeeded" "order.confirmed"
        "order_confirmed" "order-confirmed" db1)

-- `_apply_payment_success`
unfoldable pub apply_payment_success : ℕ → Payment → Db → Checked Db
apply_payment_success now p db = if p.status is PaymentStatus.succeeded then ok db else do
  order ← or_raise 404 "order_not_found" (get p.order_id db.orders)
  raise_if (not (order.status is OrderStatus.pending_payment)) 409 "order_not_pending_payment"
  (if order.order_type is OrderType.special
      then pay_special now p order db
      else pay_standard now p order db)

abbrev pub is_closed : PaymentStatus → Bool
is_closed PaymentStatus.failed = true
is_closed PaymentStatus.cancelled = true
is_closed PaymentStatus.succeeded = true
is_closed _ = false

abbrev pub failure_reason : Bool → String
failure_reason true = "payment_cancelled"
failure_reason false = "payment_failed"

-- The unpaid standard order of a failed payment expires, and its stock and benefits are released.
unfoldable pub give_up_order : ℕ → Bool → ℕ → Order → Db → Db
give_up_order now was_cancelled order_id o db =
    if o.status is OrderStatus.pending_payment && not (o.order_type is OrderType.special)
    then (let db1 = release_where (is_active_for order_id) (as_released now) db in
        let db2 = release_for_unpaid_order now order_id (failure_reason was_cancelled) db1 in
        order_event now order_id (some OrderStatus.pending_payment) OrderStatus.expired none
          (failure_reason was_cancelled)
          (record db2 {
            orders =
                put order_id
                  (record o {
                    status = OrderStatus.expired;
                    inventory_hold_expires_at = none;
                    updated_at = now;
                  })
                  db2.orders;
          }))
    else db

-- `_apply_payment_failure`
unfoldable pub apply_payment_failure : ℕ → Bool → Payment → Db → Checked Db
apply_payment_failure now was_cancelled p db = if is_closed p.status then ok db else do
  order ← or_raise 404 "order_not_found" (get p.order_id db.orders)
  let db1 : Db = record db {
    payments =
        put p.id
          (record p {
            status = (if was_cancelled then PaymentStatus.cancelled else PaymentStatus.failed);
            failed_at = some now;
          })
          db.payments;
  }
  let db2 = give_up_order now was_cancelled p.order_id order db1
  ok (
      audit (if was_cancelled then "payment.cancelled" else "payment.failed") (some p.customer_id)
        "payment" p.id db2)
