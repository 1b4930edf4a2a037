-- ===== src/Pricing/Bounds.antt =====
-- What a quote promises.
use baytna.Prelude.{ℕ, ◌+◌, ◌*◌, ◌≤◌, ◌≡◌, Option, arith, String, inl, inr}
use baytna.Prelude.Table.{get}
use baytna.Entities.{Coupon}
use baytna.Entities.Market.{SubscriptionPlan}
use baytna.Inventory.{lesser}
use baytna.Pricing.{lines_of, quote_lines, active_plan, wanted_coupon, balance_of, quote_cart}
use baytna.Pricing.Discounts.{Quote, plan_discount, wanted_discount, stacked_discount, price}
use baytna.Session.{ok, Db, Checked-cases}
use baytna.Settings.{Settings, Texts}

-- A quote adds up: the three discounts make up the total discount, which with the price to pay makes up
-- the subtotal; at least the minimum stays to be paid, or the whole subtotal if that is less; no
-- discount exceeds what the coupon or the plan grants; a coupon that excludes the plan has no plan's
-- discount beside it; and no more points are taken than the customer has.
pub price_lem :
    (settings : Settings) (subtotal : ℕ) (plan : Option SubscriptionPlan) (coupon : Option Coupon)
    (points balance : ℕ) (q : Quote)
    → price settings subtotal plan coupon points balance ≡ ok q
    → (q.coupon_discount_minor + q.subscription_discount_minor + q.loyalty_discount_minor
        ≡ q.total_discount_minor)
      × (q.total_discount_minor + q.total_minor ≡ subtotal)
      × (lesser subtotal settings.minimum_payable_minor ≤ q.total_minor)
      × (q.coupon_discount_minor ≤ wanted_discount coupon subtotal)
      × (q.subscription_discount_minor ≤ stacked_discount coupon (plan_discount subtotal plan))
      × (q.loyalty_discount_minor ≡ points * settings.loyalty_redemption_minor_per_point)
      × (points ≤ balance)
unfolding price
price_lem settings subtotal plan coupon points balance q h = (
  ground arith,
  ground arith,
  ground arith,
  ground arith,
  ground arith,
  ground arith,
  ground arith,
)

price-subtotal :
    (settings : Settings) (subtotal : ℕ) (plan : Option SubscriptionPlan) (coupon : Option Coupon)
    (points balance : ℕ) (q : Quote)
    → price settings subtotal plan coupon points balance ≡ ok q
    → q.subtotal_minor ≡ subtotal
unfolding price
price-subtotal settings subtotal plan coupon points balance q h = ground arith

-- What a quote for a cart promises, whatever the coupon.
pub quote_cart-adds_up :
    (texts : Texts) (settings : Settings) (now customer_id cart_id : ℕ) (code : Option String)
    (points : ℕ) (db : Db) (q : Quote)
    → quote_cart texts settings now customer_id cart_id code points db ≡ ok q
    → (q.total_discount_minor + q.total_minor ≡ q.subtotal_minor)
      × (lesser q.subtotal_minor settings.minimum_payable_minor ≤ q.total_minor)
unfolding quote_cart
quote_cart-adds_up texts settings now customer_id cart_id code points db q h =
    let items = lines_of cart_id db.cart_items in
    elim (Checked-cases (quote_lines now items db)) [
      | inl (e, stop) ↦ absurd (ground arith)
      | inr (subtotal, added) ↦
          elim (Checked-cases (wanted_coupon texts now customer_id code subtotal db)) [
            | inl (e, stop) ↦ absurd (ground arith)
            | inr (coupon, valid) ↦
                let plan = active_plan now customer_id db.catalog in
                let balance = balance_of (get customer_id db.loyalty_accounts) in
                let priced : price settings subtotal plan coupon points balance ≡ ok q =
                  ground arith in
                let p = price_lem settings subtotal plan coupon points balance q priced in
                let same = price-subtotal settings subtotal plan coupon points balance q priced in
                (ground (arith, p.1), ground (arith, p.2))
          ]
    ]
