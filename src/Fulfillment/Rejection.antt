-- ===== src/Fulfillment/Rejection.antt =====
-- A chef's rejection of a paid order (`reject` of `backend/app/modules/fulfillment/service.py`).
use baytna.Prelude.{
  ℕ, ◌-◌, String, Bool, not, ◌&&◌, ◌||◌, some, ltb, leb, if◌then◌else◌, ◌+++◌, count,
}
use baytna.Prelude.Table.{put}
use baytna.Entities.{Order, ChefOrderFulfillment, Payment}
use baytna.Entities.Status.{
  ◌is◌, OrderStatus, Stage, order_status, task_status, driver_status, stage_status, item_status,
  hold_status, payment_status, order_type_status, special_status, redemption_status,
}
use baytna.Delivery.Repository.{transition_order}
use baytna.Fulfillment.{order_for_chef, ensure_for_confirmed_order}
use baytna.Inventory.{release_where, is_converted_for, as_released}
use baytna.Journal.{order_event, audit}
use baytna.Payments.Refunds.{RefundRequest, succeeded_payment_for, RefundCall, create_refund}
use baytna.Session.{Db, Checked, ◌>>=◌, ◌>>◌, raise_if, or_raise, ok}
use baytna.Settings.{Settings}

-- The fields of `RefundCreateRequest` within their bounds. A request that the code builds itself
-- outside of them raises pydantic's ValidationError, which nobody catches.
unfoldable pub is_valid_request : RefundRequest → Bool
is_valid_request req =
    ltb 0 req.amount_minor
    && leb req.amount_minor 100000000
    && leb 3 (count req.reason)
    && leb (count req.reason) 240
    && leb 8 (count req.idempotency_key)
    && leb (count req.idempotency_key) 120

-- The reason behind the words for "chef rejection: ", of eleven characters.
abbrev pub refund_reason : String → String
refund_reason reason = "\u{631}\u{641}\u{636} \u{627}\u{644}\u{634}\u{64a}\u{641}: " +++ reason

-- The automatic refund of what is left of the payment; `text_of` is Python's `str` of an identifier.
unfoldable pub refund_remaining :
    (ℕ → String) → RefundCall → ℕ → ℕ → ℕ → String → Payment → Db → Checked Db
refund_remaining text_of call now chef_id order_id reason payment db =
    if ltb payment.refunded_minor payment.amount_minor
    then (let req : RefundRequest = record {
      amount_minor = payment.amount_minor - payment.refunded_minor;
      reason = refund_reason reason;
      idempotency_key = "chef-reject-" +++ text_of order_id;
    } in
        raise_if (not (is_valid_request req)) 500 "validation_error"
        >> create_refund call now chef_id order_id req db)
    else ok db

-- What `reject` writes once the payment is refunded.
unfoldable pub cancel_rejected : ℕ → ℕ → ℕ → String → Order → ChefOrderFulfillment → Db → Checked Db
unfolding transition_order
cancel_rejected now chef_id order_id reason o f db = do
  o' ←
      or_raise 409 "order_state_changed"
        (transition_order now OrderStatus.confirmed OrderStatus.cancelled o)
  let db0 = release_where (is_converted_for order_id) (as_released now) db
  let db1 : Db = record db0 {
    orders = put order_id o' db0.orders;
    fulfillments =
        put order_id
          (record f {
            stage = Stage.rejected;
            rejected_at = some now;
            rejection_reason = some reason;
          })
          db0.fulfillments;
  }
  let db2 =
      order_event now order_id (some OrderStatus.confirmed) OrderStatus.cancelled (some chef_id)
        "chef_rejected" db1
  ok (audit "chef.order.rejected" (some chef_id) "order" order_id db2)

-- `reject`. The order and its row are as they were before the refund, which writes to neither.
unfoldable pub reject : (ℕ → String) → RefundCall → Settings → ℕ → ℕ → ℕ → String → Db → Checked Db
unfolding ensure_for_confirmed_order
reject text_of call settings now chef_id order_id reason db = do
  o ← or_raise 404 "order_not_found" (order_for_chef chef_id order_id db)
  f ← ensure_for_confirmed_order settings order_id o db
  (if o.status is OrderStatus.cancelled && f.stage is Stage.rejected then ok db else do
    raise_if (not (o.status is OrderStatus.confirmed) || not (f.stage is Stage.new)) 409
        "order_cannot_reject"
    payment ← or_raise 409 "paid_order_payment_missing" (succeeded_payment_for order_id db)
    refunded_db ← refund_remaining text_of call now chef_id order_id reason payment db
    cancel_rejected now chef_id order_id reason o f refunded_db)
