-- ===== src/Orders/Lines.antt =====
-- The lines of a cart in a checkout (`backend/app/modules/orders/service.py`): each is validated again,
-- and its stock is taken and held.
use baytna.Prelude.{ℕ, ◌+◌, ◌*◌, not, Option, some, List, [], ◌∷◌, ◌==◌}
use baytna.Prelude.Table.{Table, put}
use baytna.Entities.{DailyMenuItem}
use baytna.Entities.Market.{Dish, ChefWorkday, Address, Cart, CartItem, OrderItem}
use baytna.Inventory.{reserve_inventory, new_hold}
use baytna.Orders.Cart.{validated_menu_context, validate_requested_quantity}
use baytna.Session.{Db, Checked, ◌>>=◌, ◌>>◌, raise_if, or_raise, ok}

-- What is known of a checkout before its zone is asked.
pub record Opened : Type 0 where
  pub cart : Cart
  pub chef_id : ℕ
  pub service_date : ℕ
  pub lines : List CartItem
  pub address : Option Address

-- A line with the item and the dish that it orders.
pub record Validated : Type 0 where
  pub line : CartItem
  pub item : DailyMenuItem
  pub workday : ChefWorkday
  pub dish : Dish

unfoldable pub validate_line : ℕ → Opened → CartItem → Db → Checked Validated
unfolding validated_menu_context validate_requested_quantity
validate_line now opened line db = do
  found ← validated_menu_context now line.daily_menu_item_id db
  raise_if (not (found.workday.chef_id == opened.chef_id)) 409 "cart_multiple_chefs_not_allowed"
  raise_if (not (found.workday.service_date == opened.service_date)) 409
      "cart_multiple_service_dates_not_allowed"
  validate_requested_quantity found.item line.quantity
  ok (record { line = line; item = found.item; workday = found.workday; dish = found.dish })

-- `for cart_item in cart_items`: the lines, validated.
unfoldable pub validate_lines : ℕ → Opened → List CartItem → Db → Checked (List Validated)
validate_lines now opened [] db = ok []
validate_lines now opened (c ∷ cs) db = do
  v ← validate_line now opened c db
  vs ← validate_lines now opened cs db
  ok (v ∷ vs)

abbrev pub line_total : Validated → ℕ
line_total v = v.item.price_minor * v.line.quantity

unfoldable pub subtotal_of : List Validated → ℕ
subtotal_of [] = 0
subtotal_of (v ∷ vs) = line_total v + subtotal_of vs

-- `cart_item.unit_price_minor = item.price_minor`
unfoldable pub note_prices : List Validated → Table CartItem → Table CartItem
note_prices [] lines = lines
note_prices (v ∷ vs) lines =
    note_prices vs (put v.line.id (record v.line { unit_price_minor = v.item.price_minor }) lines)

abbrev pub order_item : ℕ → Validated → OrderItem
order_item order_id v = record {
  order_id = order_id;
  daily_menu_item_id = some v.line.daily_menu_item_id;
  dish_id = v.dish.id;
  dish_name = v.dish.name;
  unit_price_minor = v.item.price_minor;
  quantity = v.line.quantity;
  line_total_minor = line_total v;
}

-- The stock of one line, taken and held for the order.
unfoldable pub hold_line : ℕ → ℕ → Validated → Db → Checked Db
hold_line order_id hold_expires v db = do
  items ←
      or_raise 409 "inventory_changed"
        (reserve_inventory v.line.daily_menu_item_id v.line.quantity db.items)
  ok (record db {
    items = items;
    order_items = order_item order_id v ∷ db.order_items;
    reservations =
        new_hold order_id v.line.daily_menu_item_id v.line.quantity hold_expires ∷ db.reservations;
  })

unfoldable pub hold_lines : ℕ → ℕ → List Validated → Db → Checked Db
hold_lines order_id hold_expires [] db = ok db
hold_lines order_id hold_expires (v ∷ vs) db = do
  db' ← hold_line order_id hold_expires v db
  hold_lines order_id hold_expires vs db'
