-- ===== src/Payments/Stock.antt =====
-- What the payments do to the stock, and what a second delivery of a notice does.
use text.Mathlib.Text.{◌==◌ as str_eq}
use baytna.Prelude.{
  subst, ℕ, String, ◌≡◌, inl, inr, Bool, not, ◌&&◌, ◌||◌, some, arith, if◌then◌else◌, Bool-cases,
  Option-cases,
}
use baytna.Prelude.Table.{get, put, find}
use baytna.Entities.{Order, Payment}
use baytna.Entities.Status.{
  ◌is◌, OrderStatus, OrderType, PaymentStatus, order_status, task_status, driver_status,
  stage_status, item_status, hold_status, payment_status, order_type_status, special_status,
  redemption_status,
}
use baytna.Inventory.{release_where, is_active_for, as_released}
use baytna.Inventory.Balance.{IsBalanced, release-IsBalanced, held-convert}
use baytna.Orders.Holds.{
  KeepsStock, keeps-IsBalanced, release_for_unpaid_order-KeepsStock,
  apply_for_paid_order-KeepsStock,
}
use baytna.Payments.{
  pay_special, pay_standard, apply_payment_success, is_closed, failure_reason, give_up_order,
  apply_payment_failure,
}
use baytna.Payments.Webhook.{
  WebhookRequest, seen, references, differs, currency_differs, dispatch, process_webhook,
}
use baytna.Session.{Db, Checked-cases, ok}

pay_special-KeepsStock :
    (now : ℕ) (p : Payment) (o : Order) (db : Db) {db' : Db}
    → pay_special now p o db ≡ ok db'
    → KeepsStock db db'
unfolding pay_special
pay_special-KeepsStock now p o db h = ground arith

pay_standard-IsBalanced :
    (now : ℕ) (p : Payment) (o : Order) (db db' : Db)
    → IsBalanced db
    → pay_standard now p o db ≡ ok db'
    → IsBalanced db'
unfolding pay_standard
pay_standard-IsBalanced now p o db db' b h = record {
  balance = λ k i e. ground (
    arith,
    apply_for_paid_order-KeepsStock now p.order_id db,
    held-convert p.order_id now k db.reservations,
    b.balance k i,
  );
}

apply_payment_success-IsBalanced :
    (now : ℕ) (p : Payment) (db db' : Db)
    → IsBalanced db
    → apply_payment_success now p db ≡ ok db'
    → IsBalanced db'
unfolding apply_payment_success
apply_payment_success-IsBalanced now p db db' b h =
    elim (Bool-cases (p.status is PaymentStatus.succeeded)) [
      | inl paid ↦ subst IsBalanced {x = db} (ground arith) b
      | inr open' ↦ elim (Option-cases (get p.order_id db.orders)) [
        | inl no_order ↦ absurd (ground arith)
        | inr (o, found) ↦ elim (Bool-cases (o.order_type is OrderType.special)) [
          | inl special' ↦
              keeps-IsBalanced (pay_special-KeepsStock now p o db {db' = db'} (ground arith)) b
          | inr standard' ↦ pay_standard-IsBalanced now p o db db' b (ground arith)
        ]
      ]
    ]

give_up_order-IsBalanced :
    (now : ℕ) (was_cancelled : Bool) (order_id : ℕ) (o : Order) (db : Db)
    → IsBalanced db
    → IsBalanced (give_up_order now was_cancelled order_id o db)
unfolding give_up_order
give_up_order-IsBalanced now was_cancelled order_id o db b =
    elim (Bool-cases
      (o.status is OrderStatus.pending_payment && not (o.order_type is OrderType.special))) [
        | inl given_up ↦ rw given_up (
            keeps-IsBalanced {db = release_where (is_active_for order_id) (as_released now) db}
              (ground (
                arith,
                release_for_unpaid_order-KeepsStock now order_id (failure_reason was_cancelled)
                    (release_where (is_active_for order_id) (as_released now) db),
              ))
              (release-IsBalanced order_id now db b).1)
        | inr kept ↦ rw kept b
      ]

apply_payment_failure-IsBalanced :
    (now : ℕ) (was_cancelled : Bool) (p : Payment) (db db' : Db)
    → IsBalanced db
    → apply_payment_failure now was_cancelled p db ≡ ok db'
    → IsBalanced db'
unfolding apply_payment_failure
apply_payment_failure-IsBalanced now was_cancelled p db db' b h =
    elim (Bool-cases (is_closed p.status)) [
      | inl closed ↦ subst IsBalanced {x = db} (ground arith) b
      | inr open' ↦ elim (Option-cases (get p.order_id db.orders)) [
        | inl no_order ↦ absurd (ground arith)
        | inr (o, found) ↦
            let failed : Db = record db {
              payments =
                  put p.id
                    (record p {
                      status =
                          (if was_cancelled then PaymentStatus.cancelled else PaymentStatus.failed);
                      failed_at = some now;
                    })
                    db.payments;
            } in
            keeps-IsBalanced {db = give_up_order now was_cancelled p.order_id o failed}
              (ground arith)
              (give_up_order-IsBalanced now was_cancelled p.order_id o failed
                (keeps-IsBalanced {db = db} (ground arith) b))
      ]
    ]

dispatch-IsBalanced :
    (now : ℕ) (provider payload_hash : String) (req : WebhookRequest) (p : Payment) (db db' : Db)
    → IsBalanced db
    → dispatch now provider payload_hash req p db ≡ ok db'
    → IsBalanced db'
unfolding dispatch
dispatch-IsBalanced now provider payload_hash req p db db' b h =
    elim (Bool-cases (str_eq req.event_type "payment.succeeded")) [
      | inl success ↦ elim (Checked-cases (apply_payment_success now p db)) [
        | inl (e, raised) ↦ absurd (ground arith)
        | inr (done, applied) ↦
            keeps-IsBalanced {db = done} (ground arith)
              (apply_payment_success-IsBalanced now p db done b applied)
      ]
      | inr other ↦
          let was_cancelled = str_eq req.event_type "payment.cancelled" in
          elim (Bool-cases (str_eq req.event_type "payment.failed" || was_cancelled)) [
            | inl failure ↦ elim (Checked-cases (apply_payment_failure now was_cancelled p db)) [
              | inl (e, raised) ↦ absurd (ground arith)
              | inr (done, applied) ↦
                  keeps-IsBalanced {db = done} (ground arith)
                    (apply_payment_failure-IsBalanced now was_cancelled p db done b applied)
            ]
            | inr ignored ↦ keeps-IsBalanced {db = db} (ground arith) b
          ]
    ]

-- Whatever a notice says, and however it is answered, the stock stays balanced: a success converts
-- the holds, a failure gives them back, and nothing else touches them.
pub process_webhook-IsBalanced :
    (upper : String → String) (own : String) (now : ℕ) (provider payload_hash : String)
    (req : WebhookRequest) (db : Db)
    → IsBalanced db
    → IsBalanced (process_webhook upper own now provider payload_hash req db).db
unfolding process_webhook
process_webhook-IsBalanced upper own now provider payload_hash req db b =
    elim (Option-cases (find (references provider req.payment_reference) db.payments)) [
      | inl unknown ↦ keeps-IsBalanced {db = db} (ground arith) b
      | inr (p, found) ↦ elim (Checked-cases (dispatch now provider payload_hash req p db)) [
        | inl (e, raised) ↦ keeps-IsBalanced {db = db} (ground arith) b
        | inr (done, dispatched) ↦
            elim (Bool-cases (
              str_eq provider own
              && not (seen provider req.event_id db.webhook_events)
              && not (differs p.amount_minor req.amount_minor)
              && not (currency_differs upper p.currency req.currency))) [
                | inl applied ↦
                    keeps-IsBalanced {db = done} (ground arith)
                      (dispatch-IsBalanced now provider payload_hash req p db done b dispatched)
                | inr stopped ↦ keeps-IsBalanced {db = db} (ground arith) b
              ]
      ]
    ]
