-- ===== src/Orders/Upkeep.antt =====
-- Carts, checkouts and the expiry of holds keep what the rest of the program relies on.
use baytna.Prelude.{
  subst, ℕ, ◌≤◌, ◌≡◌, refl, ◌∙◌, inl, inr, Option, List, [], ◌∷◌, arith, Bool-cases, Option-cases,
  ◌⊎◌, none, some,
}
use baytna.Prelude.Table.{get, put}
use baytna.Entities.{InventoryReservation}
use baytna.Entities.Status.{
  ◌is◌, OrderStatus, order_status, task_status, driver_status, stage_status, item_status,
  hold_status, payment_status, order_type_status, special_status, redemption_status,
}
use baytna.Benefits.{release_for_unpaid_order}
use baytna.Benefits.Accounts.{IsAccounted, KeepsBenefits, keeps-IsAccounted}
use baytna.Benefits.Settled.{settled-IsAccounted}
use baytna.Delivery.Apart.{Apart, Apart-refl, Apart-trans}
use baytna.Governance.{record_event, admit_or_raise, Admission-cases, allowed, turned_away}
use baytna.Inventory.{release_where, is_expired, as_expired}
use baytna.Inventory.Balance.{IsBalanced}
use baytna.Journal.{order_event}
use baytna.Orders.{expire_order, expire_orders, release_expired_holds, then_release}
use baytna.Orders.Checkout.{
  CreateOrderRequest, open_checkout, admission, place_order, checkout_admitted, checkout_opened,
  create_pending_order,
}
use baytna.Orders.Holds.{KeepsStock, keeps-IsBalanced, release_expired_holds_lem}
use baytna.Orders.Lines.{Opened}
use baytna.Orders.Placing.{place_order-Placed}
use baytna.Orders.Safety.{placed-Apart, placed-payments, placed-IsBalanced, placed-IsAccounted}
use baytna.Payments.Road.{release_expired_holds-Apart}
use baytna.Session.{Db, Checked-cases, ended, ok}
use baytna.Settings.{Settings, Platform}
use baytna.System.Money.{release_expired_holds-payments}

-- What an operation leaves in order.
pub record Upkeep (db db' : Db) : Type 0 where
  pub apart : Apart db db'
  pub payments : db'.payments ≡ db.payments
  pub balanced : IsBalanced db → IsBalanced db'
  pub accounted : IsAccounted db → IsAccounted db'

pub Upkeep-refl : (db : Db) → Upkeep db db
Upkeep-refl db = record {
  apart = Apart-refl db;
  payments = refl;
  balanced = λ b. b;
  accounted = λ a. a;
}

pub Upkeep-trans : {a b c : Db} → Upkeep a b → Upkeep b c → Upkeep a c
Upkeep-trans x y = record {
  apart = Apart-trans x.apart y.apart;
  payments = y.payments ∙ x.payments;
  balanced = λ b. y.balanced (x.balanced b);
  accounted = λ a. y.accounted (x.accounted a);
}

-- An operation that writes to none of it.
pub aside-Upkeep :
    {db db' : Db}
    → db'.tasks ≡ db.tasks
    → db.next_id ≤ db'.next_id
    → db'.orders ≡ db.orders
    → db'.payments ≡ db.payments
    → KeepsStock db db'
    → KeepsBenefits db db'
    → Upkeep db db'
aside-Upkeep {db} {db'} t i o p s b = record {
  apart = record { tasks = t; ids = i; orders = λ k x h r. ground arith };
  payments = p;
  balanced = keeps-IsBalanced {db = db} s;
  accounted = keeps-IsAccounted {db = db} b;
}

expire_order-IsAccounted :
    (now order_id : ℕ) (db : Db) → IsAccounted db → IsAccounted (expire_order now order_id db)
unfolding expire_order
expire_order-IsAccounted now order_id db a = elim (Option-cases (get order_id db.orders)) [
  | inl missing ↦ subst IsAccounted {x = db} (ground arith) a
  | inr (o, found) ↦ elim (Bool-cases (o.status is OrderStatus.pending_payment)) [
    | inl waits ↦
        let noted : Db =
          order_event now order_id (some OrderStatus.pending_payment) OrderStatus.expired none
            "inventory_hold_expired"
            (record db {
              orders =
                  put order_id
                    (record o {
                      status = OrderStatus.expired;
                      inventory_hold_expires_at = none;
                      updated_at = now;
                    })
                    db.orders;
            }) in
        subst IsAccounted {x = release_for_unpaid_order now order_id "inventory_hold_expired" noted}
          (ground arith)
          (settled-IsAccounted now order_id "inventory_hold_expired" noted
            (keeps-IsAccounted {db = db} (ground arith) a)).0
    | inr past ↦ subst IsAccounted {x = db} (ground arith) a
  ]
]

expire_orders-IsAccounted :
    (now : ℕ) (rs : List InventoryReservation) (db : Db)
    → IsAccounted db
    → IsAccounted (expire_orders now rs db)
unfolding expire_orders
expire_orders-IsAccounted now [] db a = a
expire_orders-IsAccounted now (r ∷ rs) db a = elim (Bool-cases (is_expired now r)) [
  | inl overdue ↦ rw overdue (
      expire_orders-IsAccounted now rs (expire_order now r.order_id db)
        (expire_order-IsAccounted now r.order_id db a))
  | inr in_time ↦ rw in_time (expire_orders-IsAccounted now rs db a)
]

pub release_expired_holds-Upkeep : (now : ℕ) (db : Db) → Upkeep db (release_expired_holds now db)
unfolding release_expired_holds
release_expired_holds-Upkeep now db = record {
  apart = release_expired_holds-Apart now db;
  payments = release_expired_holds-payments now db;
  balanced = λ b. (release_expired_holds_lem now db b).0;
  accounted = λ a.
      expire_orders-IsAccounted now db.reservations
        (release_where (is_expired now) (as_expired now) db)
        (keeps-IsAccounted {db = db} (ground arith) a);
}

module _ (platform : Platform) (settings : Settings) (now customer_id : ℕ)
    (payload : CreateOrderRequest) where
  place_order-Upkeep :
      (opened : Opened) (event_id : Option ℕ) (db db' : Db)
      → place_order platform settings now customer_id payload opened event_id db ≡ ok db'
      → Upkeep db db'
  place_order-Upkeep opened event_id db db' h =
      let p =
        place_order-Placed platform settings now customer_id payload opened event_id db db' h in
      record {
        apart = placed-Apart p;
        payments = placed-payments p;
        balanced = placed-IsBalanced p;
        accounted = placed-IsAccounted p;
      }

  -- Where a checkout succeeds, the answer releases the expired holds again.
  ended-Upkeep :
      (opened : Opened) (event_id : Option ℕ) (db db1 : Db)
      → Upkeep db db1
      → Upkeep db
          (ended db (
            then_release now
              (place_order platform settings now customer_id payload opened event_id db1))).db
  ended-Upkeep opened event_id db db1 u =
      elim (Checked-cases
        (place_order platform settings now customer_id payload opened event_id db1)) [
          | inl (e, stop) ↦ rw stop (Upkeep-refl db)
          | inr (db', done) ↦ rw done (
              Upkeep-trans (Upkeep-trans u (place_order-Upkeep opened event_id db1 db' done))
                (release_expired_holds-Upkeep now db'))
        ]

  -- What an admission writes.
  admission-writes :
      (opened : Opened) (db db1 : Db) (e : ℕ)
      → (admission platform settings now customer_id opened db ≡ allowed e db1)
        ⊎ (admission platform settings now customer_id opened db ≡ turned_away db1)
      → Upkeep db db1
  unfolding admission admit_or_raise record_event
  admission-writes opened db db1 e h =
      aside-Upkeep (ground arith) (ground arith) (ground arith) (ground arith) (ground arith)
        (ground arith)

  admission-Upkeep :
      (opened : Opened) (db : Db)
      → Upkeep db
          (checkout_admitted platform settings now customer_id payload opened
            (admission platform settings now customer_id opened db)
            db).db
  unfolding checkout_admitted
  admission-Upkeep opened db =
      elim (Admission-cases (admission platform settings now customer_id opened db)) [
        | inl free ↦ rw free (ended-Upkeep opened none db db (Upkeep-refl db))
        | inr (inl (e, db1, let_in)) ↦
            rw let_in
              (ended-Upkeep opened (some e) db db1 (admission-writes opened db db1 e (inl let_in)))
        | inr (inr (db1, kept_out)) ↦ rw kept_out (admission-writes opened db db1 0 (inr kept_out))
      ]

  -- A checkout, whether it succeeds, is turned away or raises, leaves the missions and the orders on the
  -- road as they were, writes to no payment, keeps balanced stock balanced, and keeps points and coupon
  -- uses accounted for.
  pub create_pending_order-Upkeep :
      (db : Db) → Upkeep db (create_pending_order platform settings now customer_id payload db).db
  unfolding create_pending_order checkout_opened
  create_pending_order-Upkeep db =
      let db0 = release_expired_holds now db in
      elim (Checked-cases (open_checkout settings customer_id payload db0)) [
        | inl (e, stop) ↦ rw stop (release_expired_holds-Upkeep now db)
        | inr (opened, opens) ↦
            rw opens
              (Upkeep-trans (release_expired_holds-Upkeep now db) (admission-Upkeep opened db0))
      ]
