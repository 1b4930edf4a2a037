-- ===== src/System/Settlement.antt =====
-- A payment's end leaves what was refunded of it.
use text.Mathlib.Text.{◌==◌ as str_eq}
use baytna.Prelude.{
  ℕ, String, ◌≡◌, refl, inl, inr, Bool, not, ◌&&◌, ◌||◌, some, arith, if◌then◌else◌, Bool-cases,
  Option-cases,
}
use baytna.Prelude.Table.{put, find, AllRows-find}
use baytna.Entities.{Payment}
use baytna.Entities.Status.{
  ◌is◌, PaymentStatus, order_status, task_status, driver_status, stage_status, item_status,
  hold_status, payment_status, order_type_status, special_status, redemption_status,
}
use baytna.Payments.{
  succeeded_payment, pay_special, pay_standard, apply_payment_success, is_closed, give_up_order,
  apply_payment_failure,
}
use baytna.Payments.Webhook.{
  WebhookRequest, seen, references, differs, currency_differs, dispatch, process_webhook,
}
use baytna.Session.{Db, Checked-cases, ok}
use baytna.System.Money.{
  Within, IsCovered, same-IsCovered, put-IsCovered, release_for_unpaid_order-payments,
  apply_for_paid_order-payments,
}

-- A payment's new row, as far as refunds are concerned.
settled_row :
    {db db' : Db} (p q : Payment)
    → q.refunded_minor ≡ p.refunded_minor
    → q.amount_minor ≡ p.amount_minor
    → Within p
    → db'.payments ≡ put p.id q db.payments
    → IsCovered db
    → IsCovered db'
settled_row {db} p q e f w same c = put-IsCovered {db = db} p.id q (ground arith) same c

apply_payment_success-IsCovered :
    (now : ℕ) (p : Payment) (db db' : Db)
    → Within p
    → apply_payment_success now p db ≡ ok db'
    → IsCovered db
    → IsCovered db'
unfolding apply_payment_success pay_special pay_standard
apply_payment_success-IsCovered now p db db' w h c =
    elim (Bool-cases (p.status is PaymentStatus.succeeded)) [
      | inl paid ↦ same-IsCovered {db = db} (ground arith) c
      | inr open' ↦
          settled_row {db = db} p (succeeded_payment now p) refl refl w
            (ground (arith, apply_for_paid_order-payments now p.order_id db)) c
    ]

apply_payment_failure-IsCovered :
    (now : ℕ) (was_cancelled : Bool) (p : Payment) (db db' : Db)
    → Within p
    → apply_payment_failure now was_cancelled p db ≡ ok db'
    → IsCovered db
    → IsCovered db'
unfolding apply_payment_failure give_up_order
apply_payment_failure-IsCovered now was_cancelled p db db' w h c =
    elim (Bool-cases (is_closed p.status)) [
      | inl closed ↦ same-IsCovered {db = db} (ground arith) c
      | inr open' ↦
          settled_row {db = db} p
            (record p {
              status = (if was_cancelled then PaymentStatus.cancelled else PaymentStatus.failed);
              failed_at = some now;
            })
            refl refl w (grind (arith, release_for_unpaid_order-payments)) c
    ]

dispatch-IsCovered :
    (now : ℕ) (provider payload_hash : String) (req : WebhookRequest) (p : Payment) (db db' : Db)
    → Within p
    → dispatch now provider payload_hash req p db ≡ ok db'
    → IsCovered db
    → IsCovered db'
unfolding dispatch
dispatch-IsCovered now provider payload_hash req p db db' w h c =
    elim (Bool-cases (str_eq req.event_type "payment.succeeded")) [
      | inl success ↦ elim (Checked-cases (apply_payment_success now p db)) [
        | inl (e, raised) ↦ absurd (ground arith)
        | inr (done, applied) ↦
            same-IsCovered {db = done} (ground arith)
              (apply_payment_success-IsCovered now p db done w applied c)
      ]
      | inr other ↦
          let was_cancelled = str_eq req.event_type "payment.cancelled" in
          elim (Bool-cases (str_eq req.event_type "payment.failed" || was_cancelled)) [
            | inl failure ↦ elim (Checked-cases (apply_payment_failure now was_cancelled p db)) [
              | inl (e, raised) ↦ absurd (ground arith)
              | inr (done, applied) ↦
                  same-IsCovered {db = done} (ground arith)
                    (apply_payment_failure-IsCovered now was_cancelled p db done w applied c)
            ]
            | inr ignored ↦ same-IsCovered {db = db} (ground arith) c
          ]
    ]

pub process_webhook-IsCovered :
    (upper : String → String) (own : String) (now : ℕ) (provider payload_hash : String)
    (req : WebhookRequest) (db : Db)
    → IsCovered db
    → IsCovered (process_webhook upper own now provider payload_hash req db).db
unfolding process_webhook
process_webhook-IsCovered upper own now provider payload_hash req db c =
    elim (Option-cases (find (references provider req.payment_reference) db.payments)) [
      | inl unknown ↦ same-IsCovered {db = db} (ground arith) c
      | inr (p, found) ↦
          let w =
            AllRows-find Within (references provider req.payment_reference) db.payments p c.covered
              found in
          elim (Checked-cases (dispatch now provider payload_hash req p db)) [
            | inl (e, raised) ↦ same-IsCovered {db = db} (ground arith) c
            | inr (done, dispatched) ↦
                elim (Bool-cases (
                  str_eq provider own
                  && not (seen provider req.event_id db.webhook_events)
                  && not (differs p.amount_minor req.amount_minor)
                  && not (currency_differs upper p.currency req.currency))) [
                    | inl applied ↦
                        same-IsCovered {db = done} (ground arith) (
                          dispatch-IsCovered now provider payload_hash req p db done w dispatched c)
                    | inr stopped ↦ same-IsCovered {db = db} (ground arith) c
                  ]
          ]
    ]
