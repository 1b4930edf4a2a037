-- ===== src/Pricing/Reserve.antt =====
-- The benefits of an order are reserved with it (`reserve_for_order` of
-- `backend/app/modules/pricing/service.py`).
use baytna.Prelude.{
  ℕ, ◌+◌, ◌-◌, String, Bool, ◌&&◌, Option, none, some, ◌∷◌, ltb, leb, if◌then◌else◌, is_some,
}
use baytna.Prelude.Table.{get, put}
use baytna.Entities.{Coupon, LoyaltyAccount}
use baytna.Entities.Status.{RedemptionStatus}
use baytna.Journal.{audit}
use baytna.Pricing.{is_exhausted}
use baytna.Pricing.Discounts.{Quote}
use baytna.Session.{Db, Checked, ◌>>=◌, or_raise, ok}

-- `UPDATE coupons SET reserved_count = reserved_count + 1`, under the limit if the quote saw one.
unfoldable pub claim_coupon : Bool → Coupon → Option Coupon
claim_coupon limited c =
    if limited && is_exhausted c
    then none
    else some (record c { reserved_count = c.reserved_count + 1 })

abbrev pub adjust : ℕ → String → Option String → ℕ → Option ℕ → Db → Db
adjust order_id kind reference amount multiplier db = record db {
  adjustments =
      record {
        order_id = order_id;
        adjustment_type = kind;
        reference_code = reference;
        amount_minor = amount;
        loyalty_multiplier_bps = multiplier;
      }
      ∷ db.adjustments;
}

unfoldable pub reserve_coupon : ℕ → ℕ → Coupon → ℕ → Db → Checked Db
unfolding claim_coupon
reserve_coupon order_id customer_id quoted discount db = do
  c ← or_raise 409 "coupon_usage_limit_reached" (get quoted.id db.coupons)
  c' ← or_raise 409 "coupon_usage_limit_reached" (claim_coupon (is_some quoted.total_usage_limit) c)
  let db1 : Db = record db {
    coupons = put quoted.id c' db.coupons;
    coupon_redemptions =
        put order_id
          (record {
            coupon_id = quoted.id;
            customer_id = customer_id;
            discount_minor = discount;
            status = RedemptionStatus.reserved;
            applied_at = none;
            released_at = none;
            release_reason = none;
          })
          db.coupon_redemptions;
  }
  ok (adjust order_id "coupon" (some quoted.code) discount none db1)

-- `UPDATE loyalty_accounts SET balance_points = balance_points - points` where they suffice.
unfoldable pub take_points : ℕ → LoyaltyAccount → Option LoyaltyAccount
take_points points a =
    if leb points a.balance_points
    then some (record a { balance_points = a.balance_points - points })
    else none

unfoldable pub reserve_points : ℕ → ℕ → ℕ → ℕ → Db → Checked Db
unfolding take_points
reserve_points order_id customer_id points discount db = do
  a ← or_raise 422 "loyalty_insufficient_points" (get customer_id db.loyalty_accounts)
  a' ← or_raise 409 "loyalty_balance_changed" (take_points points a)
  let db1 : Db = record db {
    loyalty_accounts = put customer_id a' db.loyalty_accounts;
    loyalty_redemptions =
        put order_id
          (record {
            customer_id = customer_id;
            points = points;
            discount_minor = discount;
            status = RedemptionStatus.reserved;
            applied_at = none;
            released_at = none;
            release_reason = none;
          })
          db.loyalty_redemptions;
  }
  ok (adjust order_id "loyalty" none discount none db1)

-- The coupon's part, for a coupon that takes something off.
unfoldable pub reserve_quoted_coupon : ℕ → ℕ → Quote → Db → Checked Db
reserve_quoted_coupon order_id customer_id q db = elim q.coupon [
  | none ↦ ok db
  | some c ↦
      if ltb 0 q.coupon_discount_minor
      then reserve_coupon order_id customer_id c q.coupon_discount_minor db
      else ok db
]

unfoldable pub note_plan : ℕ → Quote → Db → Db
note_plan order_id q db = elim q.plan [
  | none ↦ db
  | some plan ↦
      adjust order_id "subscription" (some plan.code) q.subscription_discount_minor
        (some plan.loyalty_multiplier_bps) db
]

unfoldable pub reserve_quoted_points : ℕ → ℕ → Quote → Db → Checked Db
reserve_quoted_points order_id customer_id q db =
    if ltb 0 q.loyalty_points_to_redeem
    then (reserve_points order_id customer_id q.loyalty_points_to_redeem q.loyalty_discount_minor
        db)
    else ok db

-- `reserve_for_order`
unfoldable pub reserve_for_order : ℕ → ℕ → Quote → Db → Checked Db
reserve_for_order order_id customer_id q db = do
  db1 ← reserve_quoted_coupon order_id customer_id q db
  db2 ← reserve_quoted_points order_id customer_id q (note_plan order_id q db1)
  ok (audit "pricing.benefits.reserved" (some customer_id) "order" order_id db2)
