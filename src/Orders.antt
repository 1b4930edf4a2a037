-- ===== src/Orders.antt =====
-- `backend/app/modules/orders/service.py`: the expiry of inventory holds, and the cancellation of an
-- order before it is paid.
pub mod Holds
pub mod Cart
pub mod Lines
pub mod Checkout
pub mod Placing
pub mod Frame
pub mod Safety
pub mod Contents
pub mod Outcome
pub mod Upkeep
pub mod Zones
pub mod Spent
use baytna.Prelude.{ℕ, Bool, true, false, not, none, some, List, [], ◌∷◌, ◌==◌, if◌then◌else◌}
use baytna.Prelude.Table.{get, put}
use baytna.Entities.{InventoryReservation, Order}
use baytna.Entities.Status.{
  ◌is◌, OrderStatus, OrderType, SpecialStatus, order_status, task_status, driver_status,
  stage_status, item_status, hold_status, payment_status, order_type_status, special_status,
  redemption_status,
}
use baytna.Benefits.{release_for_unpaid_order}
use baytna.Inventory.{release_where, is_expired, is_active_for, as_expired, as_released}
use baytna.Journal.{order_event, audit, special_for}
use baytna.Session.{Db, Checked, raise_if, or_raise, Ended, ended, ok, err, ◌>>=◌, ◌>>◌}

-- `order.status = "expired"` for an order whose hold has run out, with what follows from it.
unfoldable pub expire_order : ℕ → ℕ → Db → Db
expire_order now order_id db = elim (get order_id db.orders) [
  | none ↦ db
  | some o ↦
      if o.status is OrderStatus.pending_payment
      then (release_for_unpaid_order now order_id "inventory_hold_expired" (
          order_event now order_id (some OrderStatus.pending_payment) OrderStatus.expired none
            "inventory_hold_expired"
            (record db {
              orders =
                  put order_id
                    (record o {
                      status = OrderStatus.expired;
                      inventory_hold_expires_at = none;
                      updated_at = now;
                    })
                    db.orders;
            })))
      else db
]

-- The orders that the released reservations belong to. A second visit finds the order expired.
unfoldable pub expire_orders : ℕ → List InventoryReservation → Db → Db
expire_orders now [] db = db
expire_orders now (r ∷ rs) db =
    expire_orders now rs (if is_expired now r then expire_order now r.order_id db else db)

-- `release_expired_holds`, which commits.
unfoldable pub release_expired_holds : ℕ → Db → Db
release_expired_holds now db =
    expire_orders now db.reservations (release_where (is_expired now) (as_expired now) db)

abbrev pub before_payment : SpecialStatus → Bool
before_payment SpecialStatus.awaiting_payment = true
before_payment SpecialStatus.counter_offer = true
before_payment _ = false

-- The request behind a special order is cancelled with it.
unfoldable pub cancel_special : ℕ → ℕ → ℕ → Order → Db → Db
cancel_special now customer_id order_id o db =
    if o.order_type is OrderType.special
    then (elim (special_for order_id db.specials) [
      | none ↦ db
      | some sp ↦
          if before_payment sp.status
          then record db {
            specials =
                put sp.id (record sp { status = SpecialStatus.cancelled; cancelled_at = some now })
                  db.specials;
            special_events =
                record {
                  special_order_id = sp.id;
                  from_status = some sp.status;
                  to_status = SpecialStatus.cancelled;
                  actor_user_id = some customer_id;
                  reason = "customer_cancelled_before_payment";
                }
                ∷ db.special_events;
          }
          else db
    ])
    else db

-- What `cancel_pending_order` does up to its commit.
unfoldable pub cancel_order : ℕ → ℕ → ℕ → Db → Checked Db
cancel_order now customer_id order_id db = do
  order ← or_raise 404 "order_not_found" (get order_id db.orders)
  raise_if (not (order.customer_id == customer_id)) 404 "order_not_found"
  raise_if (not (order.status is OrderStatus.pending_payment)) 409 "order_cannot_cancel"
  let db1 = release_where (is_active_for order_id) (as_released now) db
  let db2 : Db = record db1 {
    orders =
        put order_id
          (record order {
            status = OrderStatus.cancelled;
            inventory_hold_expires_at = none;
            updated_at = now;
          })
          db1.orders;
  }
  let db3 = cancel_special now customer_id order_id order db2
  let db4 =
      order_event now order_id (some OrderStatus.pending_payment) OrderStatus.cancelled
        (some customer_id) "customer_cancelled_before_payment" db3
  let db5 = release_for_unpaid_order now order_id "customer_cancelled_before_payment" db4
  ok (audit "customer.order.cancelled_before_payment" (some customer_id) "order" order_id db5)

-- `order_detail` releases expired holds again, and cannot fail on an order just found.
abbrev pub then_release : ℕ → Checked Db → Checked Db
then_release now (ok db) = ok (release_expired_holds now db)
then_release now (err e) = err e

-- `cancel_pending_order`. The holds that are released first stay released if it raises.
unfoldable pub cancel_pending_order : ℕ → ℕ → ℕ → Db → Ended
cancel_pending_order now customer_id order_id db =
    let db0 = release_expired_holds now db in
    ended db0 (then_release now (cancel_order now customer_id order_id db0))
