-- ===== src/Scenarios/Padded.antt =====
-- A checkout at the shop for an address whose area begins with a blank.
use baytna.Prelude.{◌≡◌, refl, true, some}
use baytna.Prelude.Table.{get, put, find, above, tally}
use baytna.Entities.Market.{
  Address, CartStatus-discrete, ZoneStatus-discrete, RolloutStage-discrete,
  AdmissionReason-discrete,
}
use baytna.Entities.Status.{ItemStatus-discrete}
use baytna.Governance.{
  zone_for_area, policy, area_order_count, is_on_day, chef_order_count, decide_reason,
  rollout_bucket, decided, record_event, admit_or_raise, attach, attach_admitted_order, allowed,
}
use baytna.Inventory.{reserve_row, reserve_inventory}
use baytna.Orders.Cart.{validated_menu_context, validate_requested_quantity}
use baytna.Orders.Checkout.{admission, close_checkout, insert_order, place_order}
use baytna.Orders.Lines.{
  Opened, validate_line, validate_lines, subtotal_of, note_prices, hold_line, hold_lines,
}
use baytna.Orders.Zones.{checkout_uncounted}
use baytna.Pricing.{
  lines_of, quoted_item, quote_lines, last_to_end, active_plan, customer_uses, valid_coupon,
  wanted_coupon, own_cart, quote_cart,
}
use baytna.Pricing.Discounts.{
  plan_discount, coupon_discount, wanted_discount, stacked_discount, promo_limit, price,
}
use baytna.Pricing.Reserve.{
  claim_coupon, reserve_coupon, take_points, reserve_points, reserve_quoted_coupon, note_plan,
  reserve_quoted_points, reserve_for_order,
}
use baytna.Scenarios.{shop_zone, configured, small_platform}
use baytna.Scenarios.Market.{fair, two_koshari, opened_cart}
use baytna.Session.{Db, new_id, settle, ok}
use baytna.Timing.Promise.{snapshot}

abbrev padded_home : Address
padded_home = record { user_id = 10; area = " october"; is_default = true }

abbrev padded_cart : Opened
padded_cart = record opened_cart { address = some padded_home }

abbrev padded_in : Db
padded_in =
    record_event configured
      (decided small_platform configured 55
        (record { customer_id = 10; chef_id = 20; service_date = 1; area = " october" }) shop_zone
        fair)
      fair

abbrev padded : Db
padded =
    settle fair
      (place_order small_platform configured 55 10 two_koshari padded_cart (some 100) padded_in)

padded_known : zone_for_area small_platform.texts " october" fair.zones ≡ some shop_zone
unfolding zone_for_area find
padded_known = refl

padded_allows : admission small_platform configured 55 10 padded_cart fair ≡ allowed 100 padded_in
unfolding admission admit_or_raise zone_for_area get find policy decide_reason area_order_count
    chef_order_count tally record_event decided rollout_bucket AdmissionReason-discrete
    ZoneStatus-discrete RolloutStage-discrete
padded_allows = refl

padded_places :
    place_order small_platform configured 55 10 two_koshari padded_cart (some 100) padded_in
    ≡ ok padded
unfolding place_order validate_lines validate_line validated_menu_context
    validate_requested_quantity get put find lines_of quote_cart quote_lines quoted_item
    wanted_coupon valid_coupon own_cart price promo_limit plan_discount coupon_discount
    wanted_discount stacked_discount customer_uses tally active_plan last_to_end snapshot
    note_prices subtotal_of reserve_for_order reserve_quoted_coupon reserve_coupon claim_coupon
    reserve_quoted_points reserve_points take_points note_plan hold_lines hold_line
    reserve_inventory reserve_row close_checkout insert_order attach_admitted_order attach new_id
    above ItemStatus-discrete CartStatus-discrete record_event decided
padded_places = refl

checkout_uncounted_example :
    area_order_count small_platform.texts shop_zone (is_on_day 1) padded
    ≡ area_order_count small_platform.texts shop_zone (is_on_day 1) fair
checkout_uncounted_example =
    checkout_uncounted small_platform configured 55 10 two_koshari padded_cart padded_home shop_zone
      100 fair padded_in padded refl padded_known padded_allows padded_places (is_on_day 1) refl
