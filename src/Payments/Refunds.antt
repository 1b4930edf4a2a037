-- ===== src/Payments/Refunds.antt =====
-- Refunds (`create_refund` of `backend/app/modules/payments/service.py`).
-- `ProviderRefund`: what the payment provider answers to a refund.
use text.Mathlib.Text.{◌==◌ as str_eq}
use baytna.Prelude.{
  ℕ, ◌+◌, String, Bool, not, ◌&&◌, Option, none, some, ltb, ◌==◌, if◌then◌else◌, is_some,
}
use baytna.Prelude.Table.{get, put, find, find_last}
use baytna.Entities.{Payment, Refund}
use baytna.Entities.Status.{
  ◌is◌, OrderStatus, PaymentStatus, order_status, task_status, driver_status, stage_status,
  item_status, hold_status, payment_status, order_type_status, special_status, redemption_status,
}
use baytna.Journal.{audit}
use baytna.Session.{Db, Checked, ◌>>=◌, ◌>>◌, raise_if, or_raise, ok}

pub record ProviderRefund : Type 0 where
  pub succeeded : Bool
  pub reference : String
  pub provider_status : Option String
  pub error : Option String

-- `RefundCreateRequest`
pub record RefundRequest : Type 0 where
  pub amount_minor : ℕ
  pub reason : String
  pub idempotency_key : String

abbrev pub paid_for : ℕ → Payment → Bool
paid_for order_id p = p.order_id == order_id && p.status is PaymentStatus.succeeded

-- `succeeded_payment_for_order`, the latest.
unfoldable pub succeeded_payment_for : ℕ → Db → Option Payment
succeeded_payment_for order_id db = find_last (paid_for order_id) db.payments

unfoldable pub refund_by_idempotency : ℕ → String → Db → Option Refund
refund_by_idempotency payment_id key db =
    find (λ r. r.payment_id == payment_id && str_eq r.idempotency_key key) db.refunds

-- The provider's side of a refund: payment reference, amount and idempotency key. A call may raise.
abbrev pub RefundCall : Type 0
RefundCall = String → ℕ → String → Checked ProviderRefund

-- Paymob refunds by the transaction, the others by the payment's own reference.
abbrev pub refund_reference : Payment → String
refund_reference p =
    elim (if str_eq p.provider "paymob"
      then p.provider_transaction_reference
      else p.provider_reference) [ none ↦ "" | some r ↦ r ]

abbrev pub nonempty : String → Option String
nonempty s = if str_eq s "" then none else some s

-- The refund's row and the payment, by what the provider answers.
abbrev pub refund_row : ℕ → ℕ → ℕ → ℕ → RefundRequest → ProviderRefund → Refund
refund_row now admin order_id payment_id req res = record {
  order_id = order_id;
  payment_id = payment_id;
  requested_by_user_id = admin;
  amount_minor = req.amount_minor;
  reason = req.reason;
  idempotency_key = req.idempotency_key;
  status = (if res.succeeded then PaymentStatus.succeeded else PaymentStatus.failed);
  provider_reference = nonempty res.reference;
  provider_status = res.provider_status;
  provider_error = res.error;
  completed_at = (if res.succeeded then some now else none);
  failed_at = (if res.succeeded then none else some now);
}

abbrev pub refunded : RefundRequest → ProviderRefund → Payment → Payment
refunded req res p = record p {
  refunded_minor =
      (if res.succeeded then p.refunded_minor + req.amount_minor else p.refunded_minor);
}

-- `create_refund`. The remaining amount is signed in the source; a request is positive, so asking
-- whether `amount + refunded` exceeds the payment is the same test.
unfoldable pub create_refund : RefundCall → ℕ → ℕ → ℕ → RefundRequest → Db → Checked Db
create_refund call now admin order_id req db = do
  order ← or_raise 404 "order_not_found" (get order_id db.orders)
  raise_if (not (order.status is OrderStatus.confirmed)) 409 "refund_order_not_confirmed"
  payment ← or_raise 409 "refund_payment_not_found" (succeeded_payment_for order_id db)
  (if is_some (refund_by_idempotency payment.id req.idempotency_key db) then ok db else do
    raise_if (ltb payment.amount_minor (req.amount_minor + payment.refunded_minor)) 422
        "refund_exceeds_remaining"
    res ← call (refund_reference payment) req.amount_minor req.idempotency_key
    let db1 : Db = record db {
      refunds = put db.next_id (refund_row now admin order_id payment.id req res) db.refunds;
      payments = put payment.id (refunded req res payment) db.payments;
      next_id = db.next_id + 1;
    }
    ok (
        audit (if res.succeeded then "refund.succeeded" else "refund.failed") (some admin) "refund"
          db.next_id db1))
