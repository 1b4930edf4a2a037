-- ===== src/Orders/Cart.antt =====
-- The cart (`backend/app/modules/orders/service.py`).
pub mod Upkeep
use text.Mathlib.Text.{◌==◌ as str_eq}
use baytna.Prelude.{
  ℕ, ◌+◌, Bool, true, false, not, ◌&&◌, ◌||◌, Option, none, some, ltb, leb, ◌==◌, if◌then◌else◌,
  is_nil,
}
use baytna.Prelude.Table.{Table, get, put, find, delete_where, empty, row}
use baytna.Entities.{DailyMenuItem}
use baytna.Entities.Market.{Dish, ChefWorkday, CartStatus, Cart, CartItem, cart_status}
use baytna.Entities.Status.{
  ◌is◌, ItemStatus, order_status, task_status, driver_status, stage_status, item_status,
  hold_status, payment_status, order_type_status, special_status, redemption_status,
}
use baytna.Delivery.Repository.{is_active}
use baytna.Journal.{audit}
use baytna.Orders.{release_expired_holds}
use baytna.Pricing.{lines_of, has_passed}
use baytna.Pricing.Discounts.{price}
use baytna.Session.{Db, new_id, Checked, ◌>>=◌, ◌>>◌, raise_if, or_raise, Ended, ended, ok}

-- `active_cart`: the customer's active cart that was written last.
unfoldable pub active_cart : ℕ → Table Cart → Option (ℕ × Cart)
active_cart customer_id empty = none
active_cart customer_id (row k c t) =
    let rest = active_cart customer_id t in
    if c.customer_id == customer_id && c.status is CartStatus.active
    then (elim rest [
      | none ↦ some (k, c)
      | some r ↦ if ltb c.updated_at r.1.updated_at then some r else some (k, c)
    ])
    else rest

abbrev pub new_cart : ℕ → ℕ → Cart
new_cart now customer_id = record {
  customer_id = customer_id;
  chef_id = none;
  service_date = none;
  status = CartStatus.active;
  updated_at = now;
}

-- `create_cart`
abbrev pub create_cart : ℕ → ℕ → Db → Db
create_cart now customer_id db = record db {
  carts = put (new_id db) (new_cart now customer_id) db.carts;
  next_id = new_id db + 1;
}

-- What stands behind a line of a cart.
pub record MenuContext : Type 0 where
  pub item : DailyMenuItem
  pub workday : ChefWorkday
  pub dish : Dish

-- `_validated_menu_context`
unfoldable pub validated_menu_context : ℕ → ℕ → Db → Checked MenuContext
validated_menu_context now item_id db = do
  item ← or_raise 404 "daily_menu_item_not_found" (get item_id db.items)
  workday ← or_raise 409 "kitchen_closed" (get item.workday_id db.catalog.workdays)
  raise_if (not (str_eq workday.status "open")) 409 "kitchen_closed"
  raise_if (has_passed now workday.cutoff_at) 409 "kitchen_cutoff_passed"
  dish ← or_raise 409 "dish_unavailable" (get item.dish_id db.catalog.dishes)
  raise_if (not dish.is_active) 409 "dish_unavailable"
  raise_if (item.status is ItemStatus.hidden) 409 "item_hidden"
  ok (record { item = item; workday = workday; dish = dish })

-- `_validate_requested_quantity`
unfoldable pub validate_requested_quantity : DailyMenuItem → ℕ → Checked (Unit {0})
validate_requested_quantity item quantity = do
  raise_if (ltb item.max_per_order quantity) 422 "quantity_above_max_per_order"
  raise_if (item.status is ItemStatus.sold_out || leb item.quantity_available 0) 409 "item_sold_out"
  raise_if (ltb item.quantity_available quantity) 409 "insufficient_inventory"
  ok tt

-- `get_cart`
unfoldable pub ensure_cart : ℕ → ℕ → Db → Db
ensure_cart now customer_id db = elim (active_cart customer_id db.carts) [
  | none ↦ create_cart now customer_id db
  | some c ↦ db
]

unfoldable pub get_cart : ℕ → ℕ → Db → Db
get_cart now customer_id db = ensure_cart now customer_id (release_expired_holds now db)

abbrev pub differs_from : Option ℕ → ℕ → Bool
differs_from none n = false
differs_from (some m) n = not (m == n)

abbrev pub is_line : ℕ → ℕ → CartItem → Bool
is_line cart_id item_id c = c.cart_id == cart_id && c.daily_menu_item_id == item_id

abbrev pub quantity_in : Option CartItem → ℕ
quantity_in none = 0
quantity_in (some c) = c.quantity

-- The line of the item in the cart: the one that exists, changed, or a new one.
abbrev pub line_for : ℕ → ℕ → ℕ → ℕ → ℕ → Option CartItem → CartItem
line_for id cart_id item_id quantity price none = record {
  id = id;
  cart_id = cart_id;
  daily_menu_item_id = item_id;
  quantity = quantity;
  unit_price_minor = price;
}
line_for id cart_id item_id quantity price (some c) = record c {
  quantity = quantity;
  unit_price_minor = price;
}

-- The part of `add_cart_item` on a cart that is found or made.
unfoldable pub put_line : ℕ → ℕ → ℕ → ℕ → ℕ → Cart → Db → Checked Db
unfolding validate_requested_quantity validated_menu_context
put_line now customer_id item_id quantity cart_id cart db = do
  found ← validated_menu_context now item_id db
  let workday = found.workday
  raise_if (differs_from cart.chef_id workday.chef_id) 409 "cart_multiple_chefs_not_allowed"
  raise_if (differs_from cart.service_date workday.service_date) 409
      "cart_multiple_service_dates_not_allowed"
  let existing = find (is_line cart_id item_id) db.cart_items
  let final_quantity = quantity + quantity_in existing
  validate_requested_quantity found.item final_quantity
  let line = line_for (new_id db) cart_id item_id final_quantity found.item.price_minor existing
  let db1 : Db = record db {
    carts =
        put cart_id
          (record cart {
            chef_id = some workday.chef_id;
            service_date = some workday.service_date;
            updated_at = now;
          })
          db.carts;
    cart_items = put line.id line db.cart_items;
    next_id = new_id db + 1;
  }
  ok (audit "customer.cart.item_added" (some customer_id) "cart" cart_id db1)

-- `add_cart_item`. The item is validated before the cart is looked up.
unfoldable pub add_to_cart : ℕ → ℕ → ℕ → ℕ → Db → Checked Db
unfolding put_line
add_to_cart now customer_id item_id quantity db = elim (active_cart customer_id db.carts) [
  | none ↦
      put_line now customer_id item_id quantity (new_id db) (new_cart now customer_id)
        (create_cart now customer_id db)
  | some c ↦ put_line now customer_id item_id quantity c.0 c.1 db
]

unfoldable pub add_cart_item : ℕ → ℕ → ℕ → ℕ → Db → Ended
add_cart_item now customer_id item_id quantity db =
    let db0 = release_expired_holds now db in
    ended db0 (add_to_cart now customer_id item_id quantity db0)

-- A line of the customer's active cart.
unfoldable pub own_line : ℕ → ℕ → Db → Checked (CartItem × (ℕ × Cart))
own_line customer_id line_id db = do
  cart ← or_raise 404 "cart_not_found" (active_cart customer_id db.carts)
  line ← or_raise 404 "cart_item_not_found" (get line_id db.cart_items)
  raise_if (not (line.cart_id == cart.0)) 404 "cart_item_not_found"
  ok (line, cart)

abbrev pub is_not : Option ℕ → ℕ → Bool
is_not none n = true
is_not (some m) n = not (m == n)

-- `update_cart_item` after the release of holds.
unfoldable pub change_line : ℕ → ℕ → ℕ → ℕ → Db → Checked Db
unfolding own_line
change_line now customer_id line_id quantity db = do
  own ← own_line customer_id line_id db
  let line = own.0
  let cart = own.1.1
  found ← validated_menu_context now line.daily_menu_item_id db
  validate_requested_quantity found.item quantity
  raise_if
      (is_not cart.chef_id found.workday.chef_id
        || is_not cart.service_date found.workday.service_date)
      409 "cart_context_changed"
  let db1 : Db = record db {
    carts = put own.1.0 (record cart { updated_at = now }) db.carts;
    cart_items =
        put line_id (record line { quantity = quantity; unit_price_minor = found.item.price_minor })
          db.cart_items;
  }
  ok (audit "customer.cart.item_updated" (some customer_id) "cart_item" line_id db1)

unfoldable pub update_cart_item : ℕ → ℕ → ℕ → ℕ → Db → Ended
update_cart_item now customer_id line_id quantity db =
    let db0 = release_expired_holds now db in
    ended db0 (change_line now customer_id line_id quantity db0)

abbrev pub emptied : Cart → Cart
emptied c = record c { chef_id = none; service_date = none }

-- `remove_cart_item`
unfoldable pub remove_cart_item : ℕ → ℕ → ℕ → Db → Checked Db
remove_cart_item now customer_id line_id db = do
  own ← own_line customer_id line_id db
  let left = delete_where (λ k _. k == line_id) db.cart_items
  let cart = own.1.1
  let db1 : Db = record db {
    cart_items = left;
    carts =
        (if is_nil (lines_of own.1.0 left)
          then put own.1.0 (record (emptied cart) { updated_at = now }) db.carts
          else db.carts);
  }
  ok (audit "customer.cart.item_removed" (some customer_id) "cart_item" line_id db1)

-- `clear_cart`
unfoldable pub clear_cart : ℕ → ℕ → Db → Db
clear_cart now customer_id db = elim (active_cart customer_id db.carts) [
  | none ↦
      audit "customer.cart.cleared" (some customer_id) "cart" (new_id db)
        (create_cart now customer_id db)
  | some c ↦ audit "customer.cart.cleared" (some customer_id) "cart" c.0 (record db {
    cart_items = delete_where (λ k line. line.cart_id == c.0) db.cart_items;
    carts = put c.0 (record (emptied c.1) { updated_at = now }) db.carts;
  })
]
