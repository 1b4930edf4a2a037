-- ===== src/Pricing/Discounts.antt =====
-- The discounts of a quote (`backend/app/modules/pricing/service.py`).
use baytna.Prelude.{ℕ, ◌+◌, ◌-◌, ◌*◌, ◌/◌, Option, none, some, ltb, if◌then◌else◌}
use baytna.Entities.{Coupon}
use baytna.Entities.Market.{SubscriptionPlan}
use baytna.Inventory.{lesser}
use baytna.Session.{Checked, ◌>>◌, raise_if, ok}
use baytna.Settings.{Settings}

-- `QuoteData`. The delivery fee is always zero; the plan stands for the subscription too.
pub record Quote : Type 0 where
  pub subtotal_minor : ℕ
  pub coupon_discount_minor : ℕ
  pub subscription_discount_minor : ℕ
  pub loyalty_discount_minor : ℕ
  pub total_discount_minor : ℕ
  pub total_minor : ℕ
  pub coupon : Option Coupon
  pub loyalty_points_to_redeem : ℕ
  pub plan : Option SubscriptionPlan

abbrev pub capped : Option ℕ → ℕ → ℕ
capped none n = n
capped (some cap) n = lesser n cap

-- What the plan takes off.
unfoldable pub plan_discount : ℕ → Option SubscriptionPlan → ℕ
plan_discount subtotal none = 0
plan_discount subtotal (some plan) =
    if ltb 0 plan.order_discount_bps
    then capped plan.max_order_discount_minor (subtotal * plan.order_discount_bps / 10000)
    else 0

-- `_coupon_discount`
unfoldable pub coupon_discount : Coupon → ℕ → ℕ
coupon_discount c subtotal =
    let amount = if c.is_percent then subtotal * c.discount_value / 10000 else c.discount_value in
    lesser (capped c.max_discount_minor amount) subtotal

unfoldable pub wanted_discount : Option Coupon → ℕ → ℕ
wanted_discount none subtotal = 0
wanted_discount (some c) subtotal = coupon_discount c subtotal

-- The plan's discount stands beside a coupon only where the coupon allows it.
unfoldable pub stacked_discount : Option Coupon → ℕ → ℕ
stacked_discount none n = n
stacked_discount (some c) n = if c.stack_with_subscription then n else 0

-- The coupon and the plan together leave the minimum to pay. The coupon is kept first.
unfoldable pub promo_limit : Settings → ℕ → ℕ
promo_limit settings subtotal = subtotal - settings.minimum_payable_minor

-- The part of `quote_cart` after the lines are added up and the coupon is found valid.
unfoldable pub price :
    Settings → ℕ → Option SubscriptionPlan → Option Coupon → ℕ → ℕ → Checked Quote
unfolding promo_limit
price settings subtotal plan coupon points balance = do
  let coupon0 = wanted_discount coupon subtotal
  let plan0 = stacked_discount coupon (plan_discount subtotal plan)
  let promo = lesser (coupon0 + plan0) (promo_limit settings subtotal)
  let coupon1 = if ltb promo (coupon0 + plan0) then lesser coupon0 promo else coupon0
  let plan1 = if ltb promo (coupon0 + plan0) then promo - coupon1 else plan0
  raise_if (ltb balance points) 422 "loyalty_insufficient_points"
  let loyalty = points * settings.loyalty_redemption_minor_per_point
  raise_if (ltb (subtotal - promo - settings.minimum_payable_minor) loyalty) 422
      "loyalty_redemption_too_high"
  ok (record {
    subtotal_minor = subtotal;
    coupon_discount_minor = coupon1;
    subscription_discount_minor = plan1;
    loyalty_discount_minor = loyalty;
    total_discount_minor = promo + loyalty;
    total_minor = subtotal - (promo + loyalty);
    coupon = coupon;
    loyalty_points_to_redeem = points;
    plan = plan;
  })
