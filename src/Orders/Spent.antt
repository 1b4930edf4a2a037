-- ===== src/Orders/Spent.antt =====
-- A cart is ordered once.
use baytna.Prelude.{
  subst, ℕ, ◌≡◌, refl, sym, inl, inr, Option, none, some, List, [], ◌∷◌, arith, Bool-cases,
}
use baytna.Prelude.Table.{get, get-put_self}
use baytna.Entities.{InventoryReservation}
use baytna.Entities.Market.{CartStatus, CartStatus-discrete, Cart}
use baytna.Benefits.{release_for_unpaid_order}
use baytna.Governance.{Admission-cases, attach_admitted_order}
use baytna.Inventory.{release_where, is_expired, as_expired}
use baytna.Orders.{expire_order, expire_orders, release_expired_holds, then_release}
use baytna.Orders.Checkout.{
  CreateOrderRequest, open_checkout, admission, close_checkout, place_order, checkout_admitted,
  checkout_opened, create_pending_order,
}
use baytna.Orders.Lines.{Opened}
use baytna.Orders.Placing.{place_order-Placed}
use baytna.Pricing.{own_cart}
use baytna.Session.{Db, Checked-cases, ended, ok}
use baytna.Settings.{Settings, Platform}

expire_order-carts : (now order_id : ℕ) (db : Db) → (expire_order now order_id db).carts ≡ db.carts
unfolding expire_order release_for_unpaid_order
expire_order-carts now order_id db = ground arith

expire_orders-carts :
    (now : ℕ) (rs : List InventoryReservation) (db : Db)
    → (expire_orders now rs db).carts ≡ db.carts
unfolding expire_orders
expire_orders-carts now [] db = refl
expire_orders-carts now (r ∷ rs) db = elim (Bool-cases (is_expired now r)) [
  | inl overdue ↦ ground (
    arith,
    expire_orders-carts now rs (expire_order now r.order_id db),
    expire_order-carts now r.order_id db,
  )
  | inr in_time ↦ ground (arith, expire_orders-carts now rs db)
]

release_expired_holds-carts : (now : ℕ) (db : Db) → (release_expired_holds now db).carts ≡ db.carts
unfolding release_expired_holds
release_expired_holds-carts now db =
    expire_orders-carts now db.reservations (release_where (is_expired now) (as_expired now) db)

-- A cart that was ordered.
pub record IsSpent (cart_id : ℕ) (db : Db) : Type 0 where
  pub cart : Cart
  pub found : get cart_id db.carts ≡ some cart
  pub spent : cart.status ≡ CartStatus.converted

released-IsSpent :
    (now cart_id : ℕ) (db : Db)
    → IsSpent cart_id db
    → IsSpent cart_id (release_expired_holds now db)
released-IsSpent now cart_id db s = record {
  cart = s.cart;
  found = rw (release_expired_holds-carts now db) s.found;
  spent = s.spent;
}

module _ (platform : Platform) (settings : Settings) (now customer_id : ℕ)
    (payload : CreateOrderRequest) where
  place_order-IsSpent :
      (opened : Opened) (event_id : Option ℕ) (db db' : Db)
      → place_order platform settings now customer_id payload opened event_id db ≡ ok db'
      → IsSpent payload.cart_id db'
  unfolding close_checkout attach_admitted_order
  place_order-IsSpent opened event_id db db' h =
      let p =
        place_order-Placed platform settings now customer_id payload opened event_id db db' h in
      let cart : Cart = record (opened.cart) { status = CartStatus.converted; updated_at = now } in
      record {
        cart = cart;
        found = ground (arith, p.closes, get-put_self payload.cart_id cart p.held_db.carts);
        spent = refl;
      }

  -- Where the answer is no error, the order was placed.
  ended-IsSpent :
      (opened : Opened) (event_id : Option ℕ) (db db1 : Db)
      → (ended db (
          then_release now
            (place_order platform settings now customer_id payload opened event_id db1))).error
        ≡ none
      → IsSpent payload.cart_id
          (ended db (
            then_release now
              (place_order platform settings now customer_id payload opened event_id db1))).db
  ended-IsSpent opened event_id db db1 h =
      elim (Checked-cases
        (place_order platform settings now customer_id payload opened event_id db1)) [
          | inl (e, stop) ↦ absurd (ground arith)
          | inr (db', done) ↦ rw done (
              released-IsSpent now payload.cart_id db'
                (place_order-IsSpent opened event_id db1 db' done))
        ]

  create_pending_order-IsSpent :
      (db : Db)
      → (create_pending_order platform settings now customer_id payload db).error ≡ none
      → IsSpent payload.cart_id
          (create_pending_order platform settings now customer_id payload db).db
  unfolding create_pending_order checkout_opened checkout_admitted
  create_pending_order-IsSpent db h =
      let db0 = release_expired_holds now db in
      elim (Checked-cases (open_checkout settings customer_id payload db0)) [
        | inl (e, stop) ↦ absurd (ground arith)
        | inr (opened, opens) ↦
            elim (Admission-cases (admission platform settings now customer_id opened db0)) [
              | inl free ↦ rw (opens, free) (ended-IsSpent opened none db0 db0 (ground arith))
              | inr (inl (e, db1, let_in)) ↦
                  rw (opens, let_in) (ended-IsSpent opened (some e) db0 db1 (ground arith))
              | inr (inr (db1, kept_out)) ↦ absurd (ground arith)
            ]
      ]

-- A cart that was ordered is not found by a checkout.
spent_refused :
    (platform : Platform) (settings : Settings) (now customer_id : ℕ) (payload : CreateOrderRequest)
    (db : Db)
    → IsSpent payload.cart_id db
    → (create_pending_order platform settings now customer_id payload db).error
      ≡ some (record { status_code = 404; code = "cart_not_found" })
unfolding create_pending_order checkout_opened open_checkout own_cart CartStatus-discrete
spent_refused platform settings now customer_id payload db s =
    let r = released-IsSpent now payload.cart_id db s in ground (arith, r.found, r.spent)

-- After a checkout that raised no error, every checkout of the same cart, by anyone and at any time, is
-- refused with cart_not_found.
pub create_pending_order_once :
    (platform : Platform) (settings : Settings) (now customer_id : ℕ) (payload : CreateOrderRequest)
    (later another : ℕ) (again : CreateOrderRequest) (db : Db)
    → (create_pending_order platform settings now customer_id payload db).error ≡ none
    → again.cart_id ≡ payload.cart_id
    → (create_pending_order platform settings later another again
        (create_pending_order platform settings now customer_id payload db).db).error
      ≡ some (record { status_code = 404; code = "cart_not_found" })
create_pending_order_once platform settings now customer_id payload later another again db placed
      same =
    spent_refused platform settings later another again
      (create_pending_order platform settings now customer_id payload db).db
      (subst (λ c. IsSpent c (create_pending_order platform settings now customer_id payload db).db)
        (sym same)
        (create_pending_order-IsSpent platform settings now customer_id payload db placed))
