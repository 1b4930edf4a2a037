-- ===== src/Pricing.antt =====
-- `backend/app/modules/pricing/service.py`: the price of a cart.
pub mod Discounts
pub mod Reserve
pub mod Bounds
pub mod Points
use text.Mathlib.Text.{◌==◌ as str_eq}
use baytna.Prelude.{
  ℕ, ◌+◌, ◌*◌, String, Bool, true, false, not, ◌&&◌, ◌||◌, Option, none, some, List, [], ◌∷◌, ltb,
  leb, ◌==◌, if◌then◌else◌, is_nil,
}
use baytna.Prelude.Table.{Table, get, find, empty, row, tally}
use baytna.Entities.{DailyMenuItem, Coupon, CouponRedemption, LoyaltyAccount}
use baytna.Entities.Market.{
  SubscriptionPlan, CustomerSubscription, Catalog, CartStatus, Cart, CartItem, cart_status,
}
use baytna.Entities.Status.{
  ◌is◌, ItemStatus, RedemptionStatus, order_status, task_status, driver_status, stage_status,
  item_status, hold_status, payment_status, order_type_status, special_status, redemption_status,
}
use baytna.Delivery.Repository.{is_active}
use baytna.Pricing.Discounts.{Quote, price}
use baytna.Session.{Db, Checked, ◌>>=◌, ◌>>◌, raise_if, or_raise, ok}
use baytna.Settings.{Settings, Texts}

-- `cart_items`, in the order of their creation.
unfoldable pub lines_of : ℕ → Table CartItem → List CartItem
lines_of cart_id empty = []
lines_of cart_id (row k c t) =
    let rest = lines_of cart_id t in if c.cart_id == cart_id then c ∷ rest else rest

abbrev pub has_passed : ℕ → Option ℕ → Bool
has_passed now none = false
has_passed now (some t) = leb t now

-- The item behind a line of the cart, which must be orderable.
unfoldable pub quoted_item : ℕ → CartItem → Db → Checked DailyMenuItem
quoted_item now c db = do
  item ← or_raise 409 "cart_item_unavailable" (get c.daily_menu_item_id db.items)
  raise_if (item.status is ItemStatus.hidden || item.status is ItemStatus.sold_out) 409
      "cart_item_unavailable"
  workday ← or_raise 409 "kitchen_closed" (get item.workday_id db.catalog.workdays)
  raise_if (not (str_eq workday.status "open")) 409 "kitchen_closed"
  raise_if (has_passed now workday.cutoff_at) 409 "kitchen_cutoff_passed"
  raise_if (ltb item.quantity_available c.quantity) 409 "insufficient_inventory"
  ok item

-- The subtotal of the lines.
unfoldable pub quote_lines : ℕ → List CartItem → Db → Checked ℕ
quote_lines now [] db = ok 0
quote_lines now (c ∷ cs) db = do
  item ← quoted_item now c db
  rest ← quote_lines now cs db
  ok (item.price_minor * c.quantity + rest)

abbrev pub runs_at : ℕ → ℕ → CustomerSubscription → Bool
runs_at now customer_id s =
    s.customer_id == customer_id
    && str_eq s.status "active"
    && leb s.starts_at now
    && ltb now s.ends_at

-- The customer's running subscription that ends last.
unfoldable pub last_to_end : ℕ → ℕ → List CustomerSubscription → Option CustomerSubscription
last_to_end now customer_id [] = none
last_to_end now customer_id (s ∷ ss) =
    let rest = last_to_end now customer_id ss in
    if runs_at now customer_id s
    then (elim rest [ none ↦ some s | some r ↦ if ltb s.ends_at r.ends_at then some r else some s ])
    else rest

-- `active_subscription`, of which only the plan is used.
unfoldable pub active_plan : ℕ → ℕ → Catalog → Option SubscriptionPlan
active_plan now customer_id c = elim (last_to_end now customer_id c.subscriptions) [
  | none ↦ none
  | some s ↦ elim (get s.plan_id c.plans) [
    | none ↦ none
    | some plan ↦ if plan.is_active then some plan else none
  ]
]

abbrev pub is_in_use : RedemptionStatus → Bool
is_in_use RedemptionStatus.released = false
is_in_use _ = true

-- How often the customer holds or has used the coupon.
unfoldable pub customer_uses : ℕ → ℕ → Table CouponRedemption → ℕ
customer_uses coupon_id customer_id = tally (λ k r.
    if r.coupon_id == coupon_id && r.customer_id == customer_id && is_in_use r.status then 1 else 0)

abbrev pub is_exhausted : Coupon → Bool
is_exhausted c = elim c.total_usage_limit [
  | none ↦ false
  | some limit ↦ leb limit (c.reserved_count + c.redeemed_count)
]

abbrev pub starts_later : ℕ → Option ℕ → Bool
starts_later now none = false
starts_later now (some t) = ltb now t

-- `_valid_coupon`
unfoldable pub valid_coupon : ℕ → ℕ → String → ℕ → Db → Checked Coupon
valid_coupon now customer_id code subtotal db = do
  coupon ← or_raise 404 "coupon_invalid" (find (λ c. str_eq c.code code) db.coupons)
  raise_if (not coupon.is_active) 404 "coupon_invalid"
  raise_if (starts_later now coupon.starts_at) 409 "coupon_not_started"
  raise_if (has_passed now coupon.ends_at) 409 "coupon_expired"
  raise_if (ltb subtotal coupon.min_subtotal_minor) 422 "coupon_minimum_not_met"
  raise_if (is_exhausted coupon) 409 "coupon_usage_limit_reached"
  raise_if
      (leb coupon.per_customer_usage_limit
        (customer_uses coupon.id customer_id db.coupon_redemptions))
      409 "coupon_customer_limit_reached"
  ok coupon

-- `coupon_code.strip().upper() if coupon_code else None`, where an empty text counts as None.
abbrev pub normalized : Texts → Option String → Option String
normalized texts none = none
normalized texts (some code) =
    let n = texts.upper (texts.strip code) in
    if str_eq code "" then none else if str_eq n "" then none else some n

-- The coupon that the customer asks for, if any.
unfoldable pub wanted_coupon : Texts → ℕ → ℕ → Option String → ℕ → Db → Checked (Option Coupon)
wanted_coupon texts now customer_id code subtotal db = elim (normalized texts code) [
  | none ↦ ok none
  | some c ↦ do coupon ← valid_coupon now customer_id c subtotal db; ok (some coupon)
]

abbrev pub balance_of : Option LoyaltyAccount → ℕ
balance_of none = 0
balance_of (some a) = a.balance_points

-- A cart that the customer may still order from.
unfoldable pub own_cart : ℕ → ℕ → Db → Checked Cart
own_cart customer_id cart_id db = do
  cart ← or_raise 404 "cart_not_found" (get cart_id db.carts)
  raise_if (not (cart.customer_id == customer_id) || not (cart.status is CartStatus.active)) 404
      "cart_not_found"
  ok cart

-- `quote_cart`
unfoldable pub quote_cart : Texts → Settings → ℕ → ℕ → ℕ → Option String → ℕ → Db → Checked Quote
unfolding own_cart
quote_cart texts settings now customer_id cart_id code points db = do
  cart ← own_cart customer_id cart_id db
  let items = lines_of cart_id db.cart_items
  raise_if (is_nil items) 409 "cart_empty"
  subtotal ← quote_lines now items db
  coupon ← wanted_coupon texts now customer_id code subtotal db
  price settings subtotal (active_plan now customer_id db.catalog) coupon points
      (balance_of (get customer_id db.loyalty_accounts))
