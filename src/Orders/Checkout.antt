-- ===== src/Orders/Checkout.antt =====
-- The order that a checkout makes of a cart (`create_pending_order` of
-- `backend/app/modules/orders/service.py`).
use baytna.Prelude.{
  ℕ, ◌+◌, ◌*◌, String, not, ◌&&◌, Option, none, some, List, [], ◌∷◌, ◌==◌, if◌then◌else◌, is_nil,
  is_none, is_some,
}
use baytna.Prelude.Table.{get, put, find}
use baytna.Entities.{Order}
use baytna.Entities.Market.{Address, CartStatus, Cart}
use baytna.Entities.Status.{OrderStatus, OrderType}
use baytna.Governance.{
  Admission, admit_or_raise, attach_admitted_order, ungoverned, allowed, turned_away,
}
use baytna.Journal.{order_event, audit}
use baytna.Orders.{release_expired_holds, then_release}
use baytna.Orders.Lines.{Opened, Validated, validate_lines, subtotal_of, note_prices, hold_lines}
use baytna.Pricing.{lines_of, own_cart, quote_cart}
use baytna.Pricing.Discounts.{Quote}
use baytna.Pricing.Reserve.{reserve_for_order}
use baytna.Session.{Db, new_id, Checked, ◌>>=◌, ◌>>◌, raise_if, or_raise, Ended, ended, ok, err}
use baytna.Settings.{Settings, Platform, minute}
use baytna.Timing.Promise.{snapshot, promise}

pub record CreateOrderRequest : Type 0 where
  pub cart_id : ℕ
  pub delivery_address_id : Option ℕ
  pub coupon_code : Option String
  pub loyalty_points_to_redeem : ℕ

-- The delivery address: the one that is asked for, or the customer's default.
unfoldable pub default_address : ℕ → Option ℕ → Db → Option Address
default_address customer_id asked db = elim asked [
  | none ↦ find (λ a. a.user_id == customer_id && a.is_default) db.catalog.addresses
  | some i ↦ elim (get i db.catalog.addresses) [
    | none ↦ none
    | some a ↦ if a.user_id == customer_id then some a else none
  ]
]

unfoldable pub open_checkout : Settings → ℕ → CreateOrderRequest → Db → Checked Opened
unfolding own_cart
open_checkout settings customer_id payload db = do
  cart ← own_cart customer_id payload.cart_id db
  let lines = lines_of payload.cart_id db.cart_items
  raise_if (is_nil lines) 409 "cart_empty"
  chef_id ← or_raise 409 "cart_invalid" cart.chef_id
  service_date ← or_raise 409 "cart_invalid" cart.service_date
  let address = default_address customer_id payload.delivery_address_id db
  raise_if (is_some payload.delivery_address_id && is_none address) 404 "delivery_address_not_found"
  raise_if (is_none address && settings.traffic_require_delivery_address_for_checkout) 409
      "delivery_address_required"
  ok (record {
    cart = cart;
    chef_id = chef_id;
    service_date = service_date;
    lines = lines;
    address = address;
  })

-- `traffic_reservation`, where there is an address.
unfoldable pub admission : Platform → Settings → ℕ → ℕ → Opened → Db → Admission
admission platform settings now customer_id opened db = elim opened.address [
  | none ↦ ungoverned
  | some a ↦
      admit_or_raise platform settings now
        (record {
          customer_id = customer_id;
          chef_id = opened.chef_id;
          service_date = opened.service_date;
          area = a.area;
        })
        db
]

abbrev pub window_start : List Validated → Option String
window_start [] = none
window_start (v ∷ vs) = v.workday.delivery_window_start

abbrev pub window_end : List Validated → Option String
window_end [] = none
window_end (v ∷ vs) = v.workday.delivery_window_end

-- `create_order` of the repository.
abbrev pub new_order : ℕ → Settings → ℕ → ℕ → Opened → Quote → Order
new_order now settings customer_id cart_id opened q = record {
  customer_id = customer_id;
  chef_id = opened.chef_id;
  source_cart_id = some cart_id;
  order_type = OrderType.standard;
  service_date = opened.service_date;
  status = OrderStatus.pending_payment;
  subtotal_minor = q.subtotal_minor;
  delivery_fee_minor = 0;
  discount_minor = q.total_discount_minor;
  total_minor = q.total_minor;
  currency = "EGP";
  inventory_hold_expires_at = some (now + settings.inventory_hold_ttl_minutes * minute);
  promised_delivery_window_start_at = none;
  promised_delivery_window_end_at = none;
  created_at = now;
  updated_at = now;
}

-- `OrderDeliveryAddressEntity(...)`
abbrev pub with_address : ℕ → Option Address → Db → Db
with_address order_id none db = db
with_address order_id (some a) db = record db {
  order_addresses = put order_id (record { area = a.area }) db.order_addresses;
}

-- What is written once everything is taken.
unfoldable pub close_checkout : ℕ → ℕ → ℕ → ℕ → Option ℕ → Cart → Db → Db
close_checkout now customer_id order_id cart_id event_id cart db =
    let db1 = attach_admitted_order event_id order_id customer_id db in
    let db2 =
      order_event now order_id none OrderStatus.pending_payment (some customer_id)
        "checkout_started" db1 in
    audit "customer.order.pending_payment_created" (some customer_id) "order" order_id (record db2 {
      carts =
          put cart_id (record cart { status = CartStatus.converted; updated_at = now }) db2.carts;
    })

-- The order's row and its address.
unfoldable pub insert_order : ℕ → Order → Option Address → Db → Db
insert_order order_id o address db =
    with_address order_id address
      (record db { orders = put order_id o db.orders; next_id = order_id + 1 })

abbrev pub with_prices : List Validated → Db → Db
with_prices validated db = record db { cart_items = note_prices validated db.cart_items }

-- A checkout after its admission.
unfoldable pub place_order :
    Platform → Settings → ℕ → ℕ → CreateOrderRequest → Opened → Option ℕ → Db → Checked Db
unfolding close_checkout insert_order
place_order platform settings now customer_id payload opened event_id db = do
  validated ← validate_lines now opened opened.lines db
  let db1 = with_prices validated db
  quote ←
      quote_cart platform.texts settings now customer_id payload.cart_id payload.coupon_code
        payload.loyalty_points_to_redeem db1
  raise_if (not (quote.subtotal_minor == subtotal_of validated)) 409 "pricing_cart_changed"
  delivery_promise ←
      snapshot platform settings opened.service_date (window_start validated) (window_end validated)
  let order_id = new_id db1
  let order =
      promise delivery_promise (new_order now settings customer_id payload.cart_id opened quote)
  let db2 = insert_order order_id order opened.address db1
  db3 ← reserve_for_order order_id customer_id quote db2
  db4 ← hold_lines order_id (now + settings.inventory_hold_ttl_minutes * minute) validated db3
  ok (close_checkout now customer_id order_id payload.cart_id event_id opened.cart db4)

-- The rest of a checkout, by its admission: a refusal is committed before it raises.
unfoldable pub checkout_admitted :
    Platform → Settings → ℕ → ℕ → CreateOrderRequest → Opened → Admission → Db → Ended
checkout_admitted platform settings now customer_id payload opened ungoverned db =
    ended db
      (then_release now (place_order platform settings now customer_id payload opened none db))
checkout_admitted platform settings now customer_id payload opened (allowed event_id db1) db =
    ended db (
      then_release now
        (place_order platform settings now customer_id payload opened (some event_id) db1))
checkout_admitted platform settings now customer_id payload opened (turned_away db1) db = record {
  db = db1;
  error = some (record { status_code = 409; code = "expansion_capacity_unavailable" });
}

unfoldable pub checkout_opened :
    Platform → Settings → ℕ → ℕ → CreateOrderRequest → Checked Opened → Db → Ended
checkout_opened platform settings now customer_id payload (err e) db = record {
  db = db;
  error = some e;
}
checkout_opened platform settings now customer_id payload (ok opened) db =
    checkout_admitted platform settings now customer_id payload opened
      (admission platform settings now customer_id opened db) db

-- `create_pending_order`
unfoldable pub create_pending_order : Platform → Settings → ℕ → ℕ → CreateOrderRequest → Db → Ended
create_pending_order platform settings now customer_id payload db =
    let db0 = release_expired_holds now db in
    checkout_opened platform settings now customer_id payload
      (open_checkout settings customer_id payload db0) db0
