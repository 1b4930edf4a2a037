-- ===== src/System/Returns.antt =====
-- What a rejection refunds.
use baytna.Prelude.{
  ℕ, ◌-◌, String, ◌≡◌, inl, inr, ◌&&◌, arith, ltb, ◌+++◌, Bool-cases, Option-cases,
}
use baytna.Entities.{Order, ChefOrderFulfillment, Payment}
use baytna.Entities.Status.{
  ◌is◌, OrderStatus, Stage, order_status, task_status, driver_status, stage_status, item_status,
  hold_status, payment_status, order_type_status, special_status, redemption_status,
}
use baytna.Fulfillment.{order_for_chef, ensure_for_confirmed_order}
use baytna.Fulfillment.Rejection.{refund_reason, refund_remaining, cancel_rejected, reject}
use baytna.Payments.Refunds.{succeeded_payment_for, RefundCall}
use baytna.Session.{Db, Checked-cases, ok}
use baytna.Settings.{Settings}
use baytna.System.Money.{IsCovered, same-IsCovered, create_refund-IsCovered}

refund_remaining-IsCovered :
    (text_of : ℕ → String) (call : RefundCall) (now chef_id order_id : ℕ) (reason : String)
    (p : Payment) (db db' : Db)
    → refund_remaining text_of call now chef_id order_id reason p db ≡ ok db'
    → IsCovered db
    → IsCovered db'
unfolding refund_remaining
refund_remaining-IsCovered text_of call now chef_id order_id reason p db db' h c =
    elim (Bool-cases (ltb p.refunded_minor p.amount_minor)) [
      | inl left ↦
          create_refund-IsCovered call now chef_id order_id
            (record {
              amount_minor = p.amount_minor - p.refunded_minor;
              reason = refund_reason reason;
              idempotency_key = "chef-reject-" +++ text_of order_id;
            })
            db db' (ground arith) c
      | inr nothing ↦ same-IsCovered {db = db} (ground arith) c
    ]

cancel_rejected-payments :
    (now chef_id order_id : ℕ) (reason : String) (o : Order) (f : ChefOrderFulfillment)
    (db db' : Db)
    → cancel_rejected now chef_id order_id reason o f db ≡ ok db'
    → db'.payments ≡ db.payments
unfolding cancel_rejected
cancel_rejected-payments now chef_id order_id reason o f db db' h = ground arith

pub reject-IsCovered :
    (text_of : ℕ → String) (call : RefundCall) (settings : Settings) (now chef_id order_id : ℕ)
    (reason : String) (db db' : Db)
    → reject text_of call settings now chef_id order_id reason db ≡ ok db'
    → IsCovered db
    → IsCovered db'
unfolding reject
reject-IsCovered text_of call settings now chef_id order_id reason db db' h c =
    elim (Option-cases (succeeded_payment_for order_id db)) [
      | inl unpaid ↦ same-IsCovered {db = db} (ground arith) c
      | inr (p, paid) ↦
          elim (Checked-cases (refund_remaining text_of call now chef_id order_id reason p db)) [
            | inl (e, unrefunded) ↦ same-IsCovered {db = db} (ground arith) c
            | inr (mid, repaid) ↦
                let covered' =
                  refund_remaining-IsCovered text_of call now chef_id order_id reason p db mid
                    repaid c in
                elim (Option-cases (order_for_chef chef_id order_id db)) [
                  | inl missing ↦ absurd (ground arith)
                  | inr (o, found) ↦
                      elim (Checked-cases (ensure_for_confirmed_order settings order_id o db)) [
                        | inl (e, refused) ↦ absurd (ground arith)
                        | inr (f, ensured) ↦
                            elim (Bool-cases
                              (o.status is OrderStatus.confirmed && f.stage is Stage.new)) [
                                | inl due ↦
                                    same-IsCovered {db = mid}
                                      (cancel_rejected-payments now chef_id order_id reason o f mid
                                        db' (ground arith))
                                      covered'
                                | inr other ↦ same-IsCovered {db = db} (ground arith) c
                              ]
                      ]
                ]
          ]
    ]
