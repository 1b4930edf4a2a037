-- ===== src/Payments/Road.antt =====
-- Cancellations, expiries and payments leave the deliveries alone.
use text.Mathlib.Text.{◌==◌ as str_eq}
use baytna.Prelude.{
  subst, ℕ, String, ◌≡◌, inl, inr, Bool, false, none, some, List, [], ◌∷◌, arith, Bool-cases,
  Option-cases, not, ◌&&◌, ◌||◌,
}
use baytna.Prelude.Table.{get, find, get-put}
use baytna.Entities.{InventoryReservation, Order, Payment}
use baytna.Entities.Status.{
  ◌is◌, OrderStatus, OrderType, PaymentStatus, order_status, task_status, driver_status,
  stage_status, item_status, hold_status, payment_status, order_type_status, special_status,
  redemption_status,
}
use baytna.Benefits.{release_for_unpaid_order, apply_for_paid_order}
use baytna.Delivery.Apart.{on_road, Apart, Apart-refl, Apart-trans}
use baytna.Delivery.Coupling.{KeepsMissions}
use baytna.Fulfillment.Chain.{order-Apart}
use baytna.Inventory.{release_where, is_expired, as_expired}
use baytna.Orders.{
  expire_order, expire_orders, release_expired_holds, cancel_special, cancel_order,
  cancel_pending_order,
}
use baytna.Payments.{
  pay_special, pay_standard, apply_payment_success, give_up_order, apply_payment_failure,
}
use baytna.Payments.Webhook.{
  WebhookRequest, references, dispatch, process_webhook, seen, differs, currency_differs,
}
use baytna.Session.{Db, Checked-cases, ok}

pub keeps-Apart : {db db' : Db} → KeepsMissions db db' → Apart db db'
keeps-Apart k = record { tasks = k.tasks; ids = ground arith; orders = λ j o h r. ground arith }

release_for_unpaid_order-KeepsMissions :
    (now order_id : ℕ) (reason : String) (db : Db)
    → KeepsMissions db (release_for_unpaid_order now order_id reason db)
unfolding release_for_unpaid_order
release_for_unpaid_order-KeepsMissions now order_id reason db = ground arith

apply_for_paid_order-KeepsMissions :
    (now order_id : ℕ) (db : Db) → KeepsMissions db (apply_for_paid_order now order_id db)
unfolding apply_for_paid_order
apply_for_paid_order-KeepsMissions now order_id db = ground arith

expire_order-Apart : (now order_id : ℕ) (db : Db) → Apart db (expire_order now order_id db)
unfolding expire_order
expire_order-Apart now order_id db = elim (Option-cases (get order_id db.orders)) [
  | inl missing ↦ keeps-Apart (ground arith)
  | inr (o, found) ↦
      let o' : Order = record o {
        status = OrderStatus.expired;
        inventory_hold_expires_at = none;
        updated_at = now;
      } in
      record {
        tasks = grind (arith, release_for_unpaid_order-KeepsMissions);
        ids = grind (arith, release_for_unpaid_order-KeepsMissions);
        orders = λ k p h r.
            grind (arith, get-put order_id k o' db.orders, release_for_unpaid_order-KeepsMissions);
      }
]

expire_orders-Apart :
    (now : ℕ) (rs : List InventoryReservation) (db : Db) → Apart db (expire_orders now rs db)
unfolding expire_orders
expire_orders-Apart now [] db = Apart-refl db
expire_orders-Apart now (r ∷ rs) db = elim (Bool-cases (is_expired now r)) [
  | inl overdue ↦ rw overdue (
      Apart-trans (expire_order-Apart now r.order_id db)
        (expire_orders-Apart now rs (expire_order now r.order_id db)))
  | inr in_time ↦ rw in_time (expire_orders-Apart now rs db)
]

pub release_expired_holds-Apart : (now : ℕ) (db : Db) → Apart db (release_expired_holds now db)
unfolding release_expired_holds
release_expired_holds-Apart now db =
    let freed = release_where (is_expired now) (as_expired now) db in
    let a = expire_orders-Apart now db.reservations freed in
    record { tasks = a.tasks; ids = a.ids; orders = a.orders }

cancel_special-KeepsMissions :
    (now customer_id order_id : ℕ) (o : Order) (db : Db)
    → KeepsMissions db (cancel_special now customer_id order_id o db)
unfolding cancel_special
cancel_special-KeepsMissions now customer_id order_id o db = ground arith

cancel_order-Apart :
    (now customer_id order_id : ℕ) (db db' : Db)
    → cancel_order now customer_id order_id db ≡ ok db'
    → Apart db db'
unfolding cancel_order
cancel_order-Apart now customer_id order_id db db' h =
    elim (Option-cases (get order_id db.orders)) [
      | inl missing ↦ absurd (ground arith)
      | inr (o, found) ↦
          order-Apart order_id o
            (record o {
              status = OrderStatus.cancelled;
              inventory_hold_expires_at = none;
              updated_at = now;
            })
            found (ground arith)
            (grind (arith, release_for_unpaid_order-KeepsMissions, cancel_special-KeepsMissions))
            (grind (arith, release_for_unpaid_order-KeepsMissions, cancel_special-KeepsMissions))
            (grind (arith, release_for_unpaid_order-KeepsMissions, cancel_special-KeepsMissions))
    ]

pub cancel_pending_order-Apart :
    (now customer_id order_id : ℕ) (db : Db)
    → Apart db (cancel_pending_order now customer_id order_id db).db
unfolding cancel_pending_order
cancel_pending_order-Apart now customer_id order_id db =
    let first = release_expired_holds-Apart now db in
    elim (Checked-cases (cancel_order now customer_id order_id (release_expired_holds now db))) [
      | inl (e, refused) ↦ rw refused first
      | inr (db', done) ↦ rw done (
          Apart-trans first (
            Apart-trans
              (cancel_order-Apart now customer_id order_id (release_expired_holds now db) db' done)
              (release_expired_holds-Apart now db')))
    ]

pay_special-Apart :
    (now : ℕ) (p : Payment) (o : Order) (db db' : Db)
    → get p.order_id db.orders ≡ some o
    → on_road o.status ≡ false
    → pay_special now p o db ≡ ok db'
    → Apart db db'
unfolding pay_special
pay_special-Apart now p o db db' found off h =
    order-Apart p.order_id o (record o { status = OrderStatus.accepted_by_chef; updated_at = now })
      found off (ground arith) (ground arith) (ground arith)

pay_standard-Apart :
    (now : ℕ) (p : Payment) (o : Order) (db db' : Db)
    → get p.order_id db.orders ≡ some o
    → on_road o.status ≡ false
    → pay_standard now p o db ≡ ok db'
    → Apart db db'
unfolding pay_standard
pay_standard-Apart now p o db db' found off h =
    order-Apart p.order_id o
      (record o {
        status = OrderStatus.confirmed;
        inventory_hold_expires_at = none;
        updated_at = now;
      })
      found off (grind (arith, apply_for_paid_order-KeepsMissions))
      (grind (arith, apply_for_paid_order-KeepsMissions))
      (grind (arith, apply_for_paid_order-KeepsMissions))

apply_payment_success-Apart :
    (now : ℕ) (p : Payment) (db db' : Db) → apply_payment_success now p db ≡ ok db' → Apart db db'
unfolding apply_payment_success
apply_payment_success-Apart now p db db' h =
    elim (Bool-cases (p.status is PaymentStatus.succeeded)) [
      | inl paid ↦ subst (Apart db) {x = db} (ground arith) (Apart-refl db)
      | inr open' ↦ elim (Option-cases (get p.order_id db.orders)) [
        | inl no_order ↦ absurd (ground arith)
        | inr (o, found) ↦ elim (Bool-cases (o.order_type is OrderType.special)) [
          | inl special' ↦ pay_special-Apart now p o db db' found (ground arith) (ground arith)
          | inr standard' ↦ pay_standard-Apart now p o db db' found (ground arith) (ground arith)
        ]
      ]
    ]

apply_payment_failure-Apart :
    (now : ℕ) (was_cancelled : Bool) (p : Payment) (db db' : Db)
    → apply_payment_failure now was_cancelled p db ≡ ok db'
    → Apart db db'
unfolding apply_payment_failure give_up_order
apply_payment_failure-Apart now was_cancelled p db db' h =
    elim (Option-cases (get p.order_id db.orders)) [
      | inl no_order ↦ subst (Apart db) {x = db} (ground arith) (Apart-refl db)
      | inr (o, found) ↦
          let o' : Order = record o {
            status = OrderStatus.expired;
            inventory_hold_expires_at = none;
            updated_at = now;
          } in
          record {
            tasks = grind (arith, release_for_unpaid_order-KeepsMissions);
            ids = grind (arith, release_for_unpaid_order-KeepsMissions);
            orders = λ k q e r.
                grind (
                  arith,
                  get-put p.order_id k o' db.orders,
                  release_for_unpaid_order-KeepsMissions,
                );
          }
    ]

dispatch-Apart :
    (now : ℕ) (provider payload_hash : String) (req : WebhookRequest) (p : Payment) (db db' : Db)
    → dispatch now provider payload_hash req p db ≡ ok db'
    → Apart db db'
unfolding dispatch
dispatch-Apart now provider payload_hash req p db db' h =
    elim (Bool-cases (str_eq req.event_type "payment.succeeded")) [
      | inl success ↦ elim (Checked-cases (apply_payment_success now p db)) [
        | inl (e, raised) ↦ absurd (ground arith)
        | inr (done, applied) ↦
            Apart-trans (apply_payment_success-Apart now p db done applied)
              (keeps-Apart (ground arith))
      ]
      | inr other ↦
          let was_cancelled = str_eq req.event_type "payment.cancelled" in
          elim (Bool-cases (str_eq req.event_type "payment.failed" || was_cancelled)) [
            | inl failure ↦ elim (Checked-cases (apply_payment_failure now was_cancelled p db)) [
              | inl (e, raised) ↦ absurd (ground arith)
              | inr (done, applied) ↦
                  Apart-trans (apply_payment_failure-Apart now was_cancelled p db done applied)
                    (keeps-Apart (ground arith))
            ]
            | inr ignored ↦ keeps-Apart (ground arith)
          ]
    ]

pub process_webhook-Apart :
    (upper : String → String) (own : String) (now : ℕ) (provider payload_hash : String)
    (req : WebhookRequest) (db : Db)
    → Apart db (process_webhook upper own now provider payload_hash req db).db
unfolding process_webhook
process_webhook-Apart upper own now provider payload_hash req db =
    elim (Option-cases (find (references provider req.payment_reference) db.payments)) [
      | inl unknown ↦ keeps-Apart (ground arith)
      | inr (p, found) ↦ elim (Checked-cases (dispatch now provider payload_hash req p db)) [
        | inl (e, raised) ↦ keeps-Apart (ground arith)
        | inr (done, dispatched) ↦
            elim (Bool-cases (
              str_eq provider own
              && not (seen provider req.event_id db.webhook_events)
              && not (differs p.amount_minor req.amount_minor)
              && not (currency_differs upper p.currency req.currency))) [
                | inl applied ↦
                    Apart-trans (dispatch-Apart now provider payload_hash req p db done dispatched)
                      (keeps-Apart (ground arith))
                | inr stopped ↦ keeps-Apart (ground arith)
              ]
      ]
    ]
