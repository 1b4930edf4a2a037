-- ===== src/Fulfillment/Shortfall.antt =====
-- Where a chef's rejection does not give the customer's money back.
use text.Mathlib.TextLemmas.{length-append}
use baytna.Prelude.{
  ℕ, ◌<◌, String, ◌≡◌, false, some, arith, count, ◌-◌, ap, ◌∙◌, inl, inr, ltb, ◌+++◌, Bool-cases,
  Option-cases,
}
use baytna.Prelude.Table.{get, get-put_self}
use baytna.Entities.{Payment, Order, ChefOrderFulfillment}
use baytna.Entities.Status.{OrderStatus}
use baytna.Delivery.Coupling.{status_in}
use baytna.Fulfillment.{order_for_chef, ensure_for_confirmed_order, stored}
use baytna.Fulfillment.Rejection.{
  is_valid_request, refund_reason, refund_remaining, cancel_rejected, reject,
}
use baytna.Payments.Refunds.{
  ProviderRefund, RefundRequest, succeeded_payment_for, RefundCall, refund_reference, refunded,
  create_refund,
}
use baytna.Session.{Db, raise, ok, Checked-cases}
use baytna.Settings.{Settings}

-- A provider that answers every refund with a failure.
pub record AlwaysFails (call : RefundCall) : Type 0 where
  pub fails :
      (reference : String) (amount : ℕ) (key : String)
      → (res : ProviderRefund) × (call reference amount key ≡ ok res) × (res.succeeded ≡ false)

create_refund-failed :
    (call : RefundCall) (now admin order_id : ℕ) (req : RefundRequest) (p : Payment) (db db' : Db)
    → AlwaysFails call
    → succeeded_payment_for order_id db ≡ some p
    → get p.id db.payments ≡ some p
    → create_refund call now admin order_id req db ≡ ok db'
    → get p.id db'.payments ≡ some p
unfolding create_refund
create_refund-failed call now admin order_id req p db db' a paid stored h =
    let failure = a.fails (refund_reference p) req.amount_minor req.idempotency_key in
    ground (arith, failure.1, failure.2, get-put_self p.id (refunded req failure.0 p) db.payments)

-- For a payment that is not fully refunded, a rejection with a reason of more than 229 characters
-- raises an error of the server instead of a refund: the refund's own reason would be too long.
pub refund_remaining_too_long :
    (text_of : ℕ → String) (call : RefundCall) (now chef_id order_id : ℕ) (reason : String)
    (p : Payment) (db : Db)
    → p.refunded_minor < p.amount_minor
    → 229 < count reason
    → refund_remaining text_of call now chef_id order_id reason p db ≡ raise 500 "validation_error"
unfolding refund_remaining is_valid_request
refund_remaining_too_long text_of call now chef_id order_id reason p db left long =
    ground (arith, length-append (refund_reason "") reason)

cancel_rejected-after :
    (now chef_id order_id : ℕ) (reason : String) (o : Order) (f : ChefOrderFulfillment)
    (db db' : Db)
    → cancel_rejected now chef_id order_id reason o f db ≡ ok db'
    → (db'.payments ≡ db.payments)
      × (status_in (get order_id db'.orders) ≡ some OrderStatus.cancelled)
unfolding cancel_rejected
cancel_rejected-after now chef_id order_id reason o f db db' h = (
  ground arith,
  ground (
    arith,
    get-put_self order_id (record o { status = OrderStatus.cancelled; updated_at = now }) db.orders,
  ),
)

refund_remaining-failed :
    (text_of : ℕ → String) (call : RefundCall) (now chef_id order_id : ℕ) (reason : String)
    (p : Payment) (db db' : Db)
    → AlwaysFails call
    → succeeded_payment_for order_id db ≡ some p
    → get p.id db.payments ≡ some p
    → refund_remaining text_of call now chef_id order_id reason p db ≡ ok db'
    → get p.id db'.payments ≡ some p
unfolding refund_remaining
refund_remaining-failed text_of call now chef_id order_id reason p db db' a paid stored h =
    elim (Bool-cases (ltb p.refunded_minor p.amount_minor)) [
      | inl left ↦
          create_refund-failed call now chef_id order_id
            (record {
              amount_minor = p.amount_minor - p.refunded_minor;
              reason = refund_reason reason;
              idempotency_key = "chef-reject-" +++ text_of order_id;
            })
            p db db' a paid stored (ground arith)
      | inr nothing ↦ ground arith
    ]

-- No refund is possible for an order that is cancelled.
cancelled-refused :
    (call : RefundCall) (later admin order_id : ℕ) (req : RefundRequest) (db : Db)
    → status_in (get order_id db.orders) ≡ some OrderStatus.cancelled
    → create_refund call later admin order_id req db ≡ raise 409 "refund_order_not_confirmed"
unfolding create_refund
cancelled-refused call later admin order_id req db h =
    elim (Option-cases (get order_id db.orders)) [
      | inl missing ↦ absurd (ground arith)
      | inr (o, found) ↦ ground arith
    ]

-- Where the provider answers every refund with a failure, and the order is confirmed and has a
-- succeeded payment (stored under its own key), a chef's rejection that goes through cancels the order
-- and leaves the payment as it was, and every later refund of the order is refused, whatever is asked
-- and whatever the provider would then answer.
pub reject_keeps_money :
    (text_of : ℕ → String) (call : RefundCall) (settings : Settings) (now chef_id order_id : ℕ)
    (reason : String) (o : Order) (p : Payment) (db db' : Db)
    → AlwaysFails call
    → order_for_chef chef_id order_id db ≡ some o
    → o.status ≡ OrderStatus.confirmed
    → succeeded_payment_for order_id db ≡ some p
    → get p.id db.payments ≡ some p
    → reject text_of call settings now chef_id order_id reason db ≡ ok db'
    → (status_in (get order_id db'.orders) ≡ some OrderStatus.cancelled)
      × (get p.id db'.payments ≡ some p)
      × ((call' : RefundCall) (later admin : ℕ) (req : RefundRequest)
          → create_refund call' later admin order_id req db'
            ≡ raise 409 "refund_order_not_confirmed")
unfolding reject
reject_keeps_money text_of call settings now chef_id order_id reason o p db db' a owned ready paid
      stored h =
    elim (Checked-cases (ensure_for_confirmed_order settings order_id o db)) [
      | inl (e, refused) ↦ absurd (ground arith)
      | inr (f, ensured) ↦
          elim (Checked-cases (refund_remaining text_of call now chef_id order_id reason p db)) [
            | inl (e, unrefunded) ↦ absurd (ground arith)
            | inr (mid, tried) ↦
                let after =
                  cancel_rejected-after now chef_id order_id reason o f mid db' (ground arith) in
                let kept =
                  refund_remaining-failed text_of call now chef_id order_id reason p db mid a paid
                    stored tried in
                (
                  after.1,
                  ap (get p.id) after.0 ∙ kept,
                  λ call' later admin req.
                      cancelled-refused call' later admin order_id req db' after.1,
                )
          ]
    ]
