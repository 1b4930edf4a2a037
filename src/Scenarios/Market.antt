-- ===== src/Scenarios/Market.antt =====
-- A checkout at the shop, with a coupon and points, and the properties of checkouts there.
use baytna.Prelude.{◌≡◌, refl, true, false, none, some, [], ◌∷◌, arith, ℕ, ◌+◌, ◌*◌, ◌≤◌, ◌-◌}
use baytna.Prelude.Table.{get, put, find, above, tally, empty, row}
use baytna.Entities.{Coupon}
use baytna.Entities.Market.{
  Address, CartStatus-discrete, ZoneStatus-discrete, RolloutStage-discrete,
  AdmissionReason-discrete,
}
use baytna.Entities.Status.{ItemStatus-discrete, HoldStatus-discrete}
use baytna.Benefits.{release_for_unpaid_order, apply_for_paid_order}
use baytna.Benefits.Accounts.{pending_points, uses, IsAccounted}
use baytna.Benefits.Settled.{settled-IsAccounted}
use baytna.Governance.{
  zone_for_area, policy, area_order_count, chef_order_count, decide_reason, rollout_bucket, decided,
  record_event, admit_or_raise, attach, attach_admitted_order, allowed, is_on_day, hour, is_since,
}
use baytna.Governance.Caps.{CapsHold}
use baytna.Inventory.{
  reserve_row, reserve_inventory, lesser, release_all, release_row, release_inventory,
}
use baytna.Loyalty.{account_or_new}
use baytna.Orders.{expire_orders, release_expired_holds}
use baytna.Orders.Cart.{validated_menu_context, validate_requested_quantity}
use baytna.Orders.Checkout.{
  CreateOrderRequest, default_address, open_checkout, admission, close_checkout, insert_order,
  place_order, checkout_admitted, checkout_opened, create_pending_order,
}
use baytna.Orders.Lines.{
  Opened, validate_line, validate_lines, subtotal_of, note_prices, hold_line, hold_lines,
}
use baytna.Orders.Outcome.{IsOrdered, place_order-IsOrdered}
use baytna.Orders.Spent.{create_pending_order_once}
use baytna.Orders.Upkeep.{Upkeep, create_pending_order-Upkeep}
use baytna.Orders.Zones.{checkout-CapsHold}
use baytna.Pricing.{
  lines_of, quoted_item, quote_lines, last_to_end, active_plan, customer_uses, valid_coupon,
  wanted_coupon, own_cart, quote_cart,
}
use baytna.Pricing.Bounds.{price_lem}
use baytna.Pricing.Discounts.{
  plan_discount, coupon_discount, wanted_discount, stacked_discount, promo_limit, price, Quote,
}
use baytna.Pricing.Points.{IsUnused, reserve_for_order-IsAccounted}
use baytna.Pricing.Reserve.{
  claim_coupon, reserve_coupon, take_points, reserve_points, reserve_quoted_coupon, note_plan,
  reserve_quoted_points, reserve_for_order,
}
use baytna.Scenarios.{shop_cart, shop_line, shop_zone, shop, configured, small_platform}
use baytna.Session.{Db, new_id, settle, ok}
use baytna.Timing.Promise.{snapshot}

abbrev eid : Coupon
eid = record {
  id = 60;
  code = "eid";
  is_percent = true;
  discount_value = 1000;
  min_subtotal_minor = 0;
  max_discount_minor = none;
  total_usage_limit = some 5;
  per_customer_usage_limit = 1;
  reserved_count = 0;
  redeemed_count = 0;
  stack_with_subscription = false;
  starts_at = none;
  ends_at = none;
  is_active = true;
}

-- The shop with a coupon, and a customer who has points.
abbrev pub fair : Db
fair = record shop {
  coupons = row 60 eid empty;
  loyalty_accounts =
      row 10
        (record { balance_points = 20; lifetime_earned_points = 20; lifetime_redeemed_points = 0 })
        empty;
}

fair-IsAccounted : IsAccounted fair
unfolding get pending_points uses tally account_or_new
fair-IsAccounted = record {
  keyed = (refl, refl, tt);
  points = λ c. ground arith;
  reserved = λ k c h. ground arith;
  redeemed = λ k c h. ground arith;
  limited = λ k c h. ground arith;
}

abbrev pub two_koshari : CreateOrderRequest
two_koshari = record {
  cart_id = 80;
  delivery_address_id = none;
  coupon_code = some "eid";
  loyalty_points_to_redeem = 5;
}

abbrev home : Address
home = record { user_id = 10; area = "october"; is_default = true }

abbrev pub opened_cart : Opened
opened_cart = record {
  cart = shop_cart;
  chef_id = 20;
  service_date = 1;
  lines = shop_line ∷ [];
  address = some home;
}

-- The zone's policy and its event are written before the order.
abbrev let_in : Db
let_in =
    record_event configured
      (decided small_platform configured 55
        (record { customer_id = 10; chef_id = 20; service_date = 1; area = "october" }) shop_zone
        fair)
      fair

abbrev placed : Db
placed =
    settle fair
      (place_order small_platform configured 55 10 two_koshari opened_cart (some 100) let_in)

opens : open_checkout configured 10 two_koshari fair ≡ ok opened_cart
unfolding open_checkout get find lines_of default_address own_cart CartStatus-discrete
opens = refl

allows : admission small_platform configured 55 10 opened_cart fair ≡ allowed 100 let_in
unfolding admission admit_or_raise zone_for_area get find policy decide_reason area_order_count
    chef_order_count tally record_event decided rollout_bucket AdmissionReason-discrete
    ZoneStatus-discrete RolloutStage-discrete
allows = refl

places :
    place_order small_platform configured 55 10 two_koshari opened_cart (some 100) let_in
    ≡ ok placed
unfolding place_order validate_lines validate_line validated_menu_context
    validate_requested_quantity get put find lines_of quote_cart quote_lines quoted_item
    wanted_coupon valid_coupon own_cart price promo_limit plan_discount coupon_discount
    wanted_discount stacked_discount customer_uses tally active_plan last_to_end snapshot
    note_prices subtotal_of reserve_for_order reserve_quoted_coupon reserve_coupon claim_coupon
    reserve_quoted_points reserve_points take_points note_plan hold_lines hold_line
    reserve_inventory reserve_row close_checkout insert_order attach_admitted_order attach new_id
    above ItemStatus-discrete CartStatus-discrete record_event decided
places = refl

place_order-IsOrdered_example : (id : ℕ) × IsOrdered id configured 10 opened_cart let_in placed
place_order-IsOrdered_example =
    place_order-IsOrdered small_platform configured 55 10 two_koshari opened_cart (some 100) let_in
      placed places

create_pending_order-Upkeep_example :
    Upkeep fair (create_pending_order small_platform configured 55 10 two_koshari fair).db
create_pending_order-Upkeep_example =
    create_pending_order-Upkeep small_platform configured 55 10 two_koshari fair

zone_known : zone_for_area small_platform.texts "october" fair.zones ≡ some shop_zone
unfolding zone_for_area find
zone_known = refl

checkout-CapsHold_example :
    CapsHold small_platform configured 55
      (record { customer_id = 10; chef_id = 20; service_date = 1; area = "october" })
      shop_zone
      fair
      placed
    × (area_order_count small_platform.texts shop_zone (is_on_day 1) placed
        ≡ area_order_count small_platform.texts shop_zone (is_on_day 1) fair + 1)
    × (area_order_count small_platform.texts shop_zone (is_since (55 - hour)) placed
        ≡ area_order_count small_platform.texts shop_zone (is_since (55 - hour)) fair + 1)
    × (chef_order_count 20 1 placed ≡ chef_order_count 20 1 fair + 1)
checkout-CapsHold_example =
    checkout-CapsHold small_platform configured 55 10 two_koshari opened_cart home shop_zone 100
      fair let_in placed refl zone_known allows places refl

no_error : (create_pending_order small_platform configured 55 10 two_koshari fair).error ≡ none
unfolding open_checkout get find lines_of default_address own_cart CartStatus-discrete admission
    admit_or_raise zone_for_area policy decide_reason area_order_count chef_order_count tally
    record_event decided rollout_bucket AdmissionReason-discrete ZoneStatus-discrete
    RolloutStage-discrete place_order validate_lines validate_line validated_menu_context
    validate_requested_quantity put quote_cart quote_lines quoted_item wanted_coupon valid_coupon
    price promo_limit plan_discount coupon_discount wanted_discount stacked_discount customer_uses
    active_plan last_to_end snapshot note_prices subtotal_of reserve_for_order reserve_quoted_coupon
    reserve_coupon claim_coupon reserve_quoted_points reserve_points take_points note_plan
    hold_lines hold_line reserve_inventory reserve_row close_checkout insert_order
    attach_admitted_order attach new_id above ItemStatus-discrete create_pending_order
    checkout_opened checkout_admitted release_expired_holds expire_orders release_all
    HoldStatus-discrete release_row release_inventory
no_error = refl

create_pending_order_once_example :
    (create_pending_order small_platform configured 58 10 two_koshari
      (create_pending_order small_platform configured 55 10 two_koshari fair).db).error
    ≡ some (record { status_code = 404; code = "cart_not_found" })
create_pending_order_once_example =
    create_pending_order_once small_platform configured 55 10 two_koshari 58 10 two_koshari fair
      no_error refl

abbrev eid_quote : Quote
eid_quote = record {
  subtotal_minor = 600;
  coupon_discount_minor = 60;
  subscription_discount_minor = 0;
  loyalty_discount_minor = 50;
  total_discount_minor = 110;
  total_minor = 490;
  coupon = some eid;
  loyalty_points_to_redeem = 5;
  plan = none;
}

quoted : price configured 600 none (some eid) 5 20 ≡ ok eid_quote
unfolding price wanted_discount coupon_discount stacked_discount plan_discount promo_limit
quoted = refl

price_example :
    (60 + 0 + 50 ≡ 110)
    × (110 + 490 ≡ 600)
    × (lesser 600 100 ≤ 490)
    × (60 ≤ wanted_discount (some eid) 600)
    × (0 ≤ stacked_discount (some eid) (plan_discount 600 none))
    × (50 ≡ 5 * 10)
    × (5 ≤ 20)
price_example = price_lem configured 600 none (some eid) 5 20 eid_quote quoted

-- The order 200 takes the benefits of the quote.
abbrev reserved_fair : Db
reserved_fair = settle fair (reserve_for_order 200 10 eid_quote fair)

reserves_fair : reserve_for_order 200 10 eid_quote fair ≡ ok reserved_fair
unfolding reserve_for_order reserve_quoted_coupon reserve_coupon claim_coupon reserve_quoted_points
    reserve_points take_points note_plan get put
reserves_fair = refl

eid_known : get 60 fair.coupons ≡ some eid
unfolding get
eid_known = refl

fair-IsUnused : IsUnused 200 fair
unfolding get
fair-IsUnused = record { no_coupon = refl; no_points = refl }

reserve_for_order-IsAccounted_example : IsAccounted reserved_fair
reserve_for_order-IsAccounted_example =
    reserve_for_order-IsAccounted 200 10 eid_quote fair reserved_fair fair-IsAccounted eid_known
      fair-IsUnused reserves_fair

reserved_fair-IsAccounted : IsAccounted reserved_fair
reserved_fair-IsAccounted =
    reserve_for_order-IsAccounted 200 10 eid_quote fair reserved_fair fair-IsAccounted eid_known
      fair-IsUnused reserves_fair

settled-IsAccounted_example :
    IsAccounted (release_for_unpaid_order 55 200 "expired" reserved_fair)
    × IsAccounted (apply_for_paid_order 55 200 reserved_fair)
settled-IsAccounted_example =
    settled-IsAccounted 55 200 "expired" reserved_fair reserved_fair-IsAccounted
