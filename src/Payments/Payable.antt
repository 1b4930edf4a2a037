-- ===== src/Payments/Payable.antt =====
-- What a payment intent is for, and that its key is used once.
use text.Mathlib.Text.{◌==◌ as str_eq}
use text.Mathlib.TextEquality.{eq_iff}
use text.Mathlib.TextPositions.{eq_refl}
use baytna.Prelude.{
  ℕ, ◌≤◌, String, ◌≡◌, refl, inl, inr, false, none, some, arith, ◌<◌, ◌⊎◌, Bool-cases, Option-cases,
}
use baytna.Prelude.Table.{get, put, find-put_new, get-above, find-passes}
use baytna.Entities.{Order, Payment, SpecialOrderRequest}
use baytna.Entities.Status.{
  PaymentStatus, ◌is◌, OrderStatus, OrderType, OrderType-discrete, SpecialStatus, order_status,
  task_status, driver_status, stage_status, item_status, hold_status, payment_status,
  order_type_status, special_status, redemption_status,
}
use baytna.Journal.{special_for}
use baytna.Payments.Intents.{
  IntentCall, PaymentSetup, completes_at_once, payment_deadline, payment_by_key, new_payment_id,
  new_payment, open_intent, create_payment_intent, ProviderIntent,
}
use baytna.Reliability.Queue.{waits}
use baytna.Session.{Db, Checked-cases, ok}
use baytna.Settings.{Settings, Texts}

-- Until when an order can be paid: a standard one while its stock is held for it, and a special one
-- while its request waits for the payment and the offer lasts.
pub data PayableUntil (now order_id : ℕ) (o : Order) (db : Db) (t : ℕ) : Type 0 where
  held :
      o.order_type ≡ OrderType.standard
      → o.inventory_hold_expires_at ≡ some t
      → now < t
      → PayableUntil now order_id o db t
  offered :
      o.order_type ≡ OrderType.special
      → (sp : SpecialOrderRequest) → special_for order_id db.specials ≡ some sp
      → sp.status ≡ SpecialStatus.awaiting_payment
      → sp.offer_expires_at ≡ some t
      → now < t
      → PayableUntil now order_id o db t

not_special : (t : OrderType) → (t is OrderType.special) ≡ false → t ≡ OrderType.standard
unfolding OrderType-discrete
not_special OrderType.standard h = refl
not_special OrderType.special h = cc

payment_deadline-PayableUntil :
    (now order_id : ℕ) (o : Order) (db : Db) (t : ℕ)
    → payment_deadline now order_id o db ≡ ok t
    → PayableUntil now order_id o db t
unfolding payment_deadline
payment_deadline-PayableUntil now order_id o db t h =
    elim (Bool-cases (o.order_type is OrderType.special)) [
      | inl special ↦ elim (Option-cases (special_for order_id db.specials)) [
        | inl missing ↦ absurd (ground arith)
        | inr (sp, found) ↦
            offered (ground arith) sp found (ground arith) (ground arith) (ground arith)
      ]
      | inr standard ↦ held (not_special o.order_type standard) (ground arith) (ground arith)
    ]

PayableUntil-lt :
    (now order_id : ℕ) (o : Order) (db : Db) (t : ℕ) → PayableUntil now order_id o db t → now < t
PayableUntil-lt now order_id o db t (held standard some_hold early) = early
PayableUntil-lt now order_id o db t (offered special sp found waits some_offer early) = early

payment_by_key-key :
    (key : String) (db : Db) (p : Payment)
    → payment_by_key key db ≡ some p
    → p.idempotency_key ≡ key
unfolding payment_by_key
payment_by_key-key key db p h =
    (eq_iff p.idempotency_key key).0
      (find-passes (λ q. str_eq q.idempotency_key key) db.payments p h)

-- What has been waiting under the key: a payment of the same order by the same customer.
pub record IsKnown (customer_id order_id : ℕ) (key : String) (db : Db) : Type 0 where
  pub payment : Payment
  pub found : payment_by_key key db ≡ some payment
  pub own_key : payment.idempotency_key ≡ key
  pub order : payment.order_id ≡ order_id
  pub customer : payment.customer_id ≡ customer_id

-- A payment under a key that is new: of the order's customer and price, for which the provider has been
-- asked. It expires after `now`, and no later than `until`.
pub record IsIntent (call : IntentCall) (now order_id : ℕ) (o : Order) (key : String) (until : ℕ)
    (db db' : Db) : Type 0 where
  pub unknown : payment_by_key key db ≡ none
  pub id : ℕ
  pub payment : Payment
  pub fresh : get id db.payments ≡ none
  pub added : db'.payments ≡ put id payment db.payments
  pub intent : ProviderIntent
  pub answered : call id o.total_minor o.currency key ≡ ok intent
  pub reference : payment.provider_reference ≡ some intent.reference
  pub order : payment.order_id ≡ order_id
  pub customer : payment.customer_id ≡ o.customer_id
  pub own_key : payment.idempotency_key ≡ key
  pub amount : payment.amount_minor ≡ o.total_minor
  pub untouched : payment.refunded_minor ≡ 0
  pub waiting : payment.status ≡ PaymentStatus.pending
  pub open_now : now < payment.expires_at
  pub in_time : payment.expires_at ≤ until

-- An order that may be paid, and the payment that is found or made for it.
pub record IsServed (call : IntentCall) (now customer_id order_id : ℕ) (key : String) (db db' : Db)
    : Type 0 where
  pub o : Order
  pub until : ℕ
  pub found : get order_id db.orders ≡ some o
  pub own : o.customer_id ≡ customer_id
  pub unpaid : o.status ≡ OrderStatus.pending_payment
  pub payable : PayableUntil now order_id o db until
  pub served :
      (IsKnown customer_id order_id key db × (db' ≡ db))
      ⊎ IsIntent call now order_id o key until db db'

module _ (texts : Texts) (settings : Settings) (setup : PaymentSetup) (call : IntentCall)
    (not_at_once : completes_at_once texts setup ≡ false) where
  open_intent-IsIntent :
      (now order_id until : ℕ) (o : Order) (key : String) (db db' : Db)
      → 0 < settings.payment_intent_ttl_minutes
      → now < until
      → payment_by_key key db ≡ none
      → open_intent texts settings setup call now order_id o key until db ≡ ok db'
      → IsIntent call now order_id o key until db db'
  unfolding open_intent
  open_intent-IsIntent now order_id until o key db db' lasts early unknown h =
      let id = new_payment_id db in
      elim (Checked-cases (call id o.total_minor o.currency key)) [
        | inl (e, refuses) ↦ absurd (ground arith)
        | inr (intent, answered) ↦ record {
          unknown = unknown;
          id = id;
          payment = new_payment settings setup now id order_id o key until intent;
          fresh = get-above id db.payments (omega arith);
          added = ground arith;
          intent = intent;
          answered = answered;
          reference = refl;
          order = refl;
          customer = refl;
          own_key = refl;
          amount = refl;
          untouched = refl;
          waiting = refl;
          open_now = ground arith;
          in_time = ground arith;
        }
      ]

  -- Where payments are not completed at once and last at least a minute, a request for an intent that
  -- succeeds is for an unpaid order of the customer that can still be paid: a standard order whose stock
  -- is held, or a special order whose request waits for the payment and whose offer lasts. Either the key
  -- is that of a payment of this order and customer, and nothing changes; or the key is new, and one
  -- payment is added, of the order's customer and price, for which the provider was asked, that waits and
  -- expires later than now and no later than the hold or the offer.
  pub create_payment_intent-IsServed :
      (now customer_id order_id : ℕ) (key : String) (db db' : Db)
      → 0 < settings.payment_intent_ttl_minutes
      → create_payment_intent texts settings setup call now customer_id order_id key db ≡ ok db'
      → IsServed call now customer_id order_id key db db'
  unfolding create_payment_intent
  create_payment_intent-IsServed now customer_id order_id key db db' lasts h =
      elim (Option-cases (get order_id db.orders)) [
        | inl missing ↦ absurd (ground arith)
        | inr (o, found) ↦ elim (Checked-cases (payment_deadline now order_id o db)) [
          | inl (e, late) ↦ absurd (ground arith)
          | inr (t, due) ↦
              let payable = payment_deadline-PayableUntil now order_id o db t due in
              record {
                o = o;
                until = t;
                found = found;
                own = ground arith;
                unpaid = ground arith;
                payable = payable;
                served = elim (Option-cases (payment_by_key key db)) [
                  | inl unknown ↦ inr (
                      open_intent-IsIntent now order_id t o key db db' lasts
                        (PayableUntil-lt now order_id o db t payable) unknown (ground arith))
                  | inr (p, known) ↦ inl (
                    record {
                      payment = p;
                      found = known;
                      own_key = payment_by_key-key key db p known;
                      order = ground arith;
                      customer = ground arith;
                    },
                    ground arith,
                  )
                ];
              }
        ]
      ]

  -- Where payments are not completed at once and the key was new, the same request again, while the order
  -- can still be paid and whatever the provider would answer, changes nothing.
  pub create_payment_intent_once :
      (now later customer_id order_id : ℕ) (key : String) (db db' : Db) (o : Order) (deadline : ℕ)
      → create_payment_intent texts settings setup call now customer_id order_id key db ≡ ok db'
      → get order_id db.orders ≡ some o
      → payment_deadline later order_id o db ≡ ok deadline
      → payment_by_key key db ≡ none
      → (other : IntentCall)
      → create_payment_intent texts settings setup other later customer_id order_id key db' ≡ ok db'
  unfolding create_payment_intent open_intent payment_by_key payment_deadline
  create_payment_intent_once now later customer_id order_id key db db' o deadline h found due
        unknown other =
      let id = new_payment_id db in
      elim (Checked-cases (payment_deadline now order_id o db)) [
        | inl (e, late') ↦ absurd (ground arith)
        | inr (d, in_time) ↦ elim (Checked-cases (call id o.total_minor o.currency key)) [
          | inl (e, refuses) ↦ absurd (ground arith)
          | inr (intent, answered) ↦
              let p = new_payment settings setup now id order_id o key d intent in
              ground (
                arith,
                eq_refl key,
                find-put_new (λ q. str_eq q.idempotency_key key) id p db.payments
                    (get-above id db.payments (omega arith)),
              )
        ]
      ]
