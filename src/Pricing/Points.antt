-- ===== src/Pricing/Points.antt =====
-- Reserving an order's benefits keeps points and coupon uses accounted for.
use text.Mathlib.Text.{◌==◌ as str_eq}
use baytna.Prelude.{
  ℕ, ◌+◌, ◌≡◌, none, some, arith, subst, refl, String, sym, inl, inr, Option, ltb, Bool-cases,
  Option-cases,
}
use baytna.Prelude.Table.{get, get-put, tally-put, put, Keyed, Keyed-put, get-find, Table}
use baytna.Entities.{Coupon, CouponRedemption, LoyaltyRedemption}
use baytna.Entities.Market.{SubscriptionPlan}
use baytna.Entities.Status.{RedemptionStatus}
use baytna.Benefits.Accounts.{
  held_points, pending_points, marks, uses, IsAccounted, keeps-IsAccounted,
}
use baytna.Loyalty.{account_or_new}
use baytna.Pricing.{
  lines_of, quote_lines, active_plan, valid_coupon, normalized, wanted_coupon, balance_of,
  quote_cart,
}
use baytna.Pricing.Discounts.{Quote, price}
use baytna.Pricing.Reserve.{
  reserve_coupon, reserve_points, reserve_quoted_coupon, note_plan, reserve_quoted_points,
  reserve_for_order,
}
use baytna.Session.{Db, ok, Checked-cases}
use baytna.Settings.{Settings, Texts}

-- The order has no reserved benefits yet.
pub record IsUnused (order_id : ℕ) (db : Db) : Type 0 where
  pub no_coupon : get order_id db.coupon_redemptions ≡ none
  pub no_points : get order_id db.loyalty_redemptions ≡ none

module _ (order_id customer_id : ℕ) (db : Db) (a : IsAccounted db) where
  reserve_coupon-IsAccounted :
      (quoted : Coupon) (discount : ℕ) (db' : Db)
      → get quoted.id db.coupons ≡ some quoted
      → get order_id db.coupon_redemptions ≡ none
      → reserve_coupon order_id customer_id quoted discount db ≡ ok db'
      → IsAccounted db'
  unfolding reserve_coupon uses
  reserve_coupon-IsAccounted quoted discount db' there unused h =
      let c' : Coupon = record quoted { reserved_count = quoted.reserved_count + 1 } in
      let r : CouponRedemption = record {
        coupon_id = quoted.id;
        customer_id = customer_id;
        discount_minor = discount;
        status = RedemptionStatus.reserved;
        applied_at = none;
        released_at = none;
        release_reason = none;
      } in
      record {
        keyed =
            subst (Keyed (λ c. c.id)) {x = put quoted.id c' db.coupons} (ground arith)
              (Keyed-put (λ c. c.id) quoted.id c' db.coupons refl a.keyed);
        points = λ c. ground (arith, a.points c);
        reserved = λ i c e. ground (
          arith,
          tally-put (marks i RedemptionStatus.reserved) order_id r db.coupon_redemptions,
          get-put quoted.id i c' db.coupons,
          a.reserved i c,
          a.reserved quoted.id quoted,
        );
        redeemed = λ i c e. ground (
          arith,
          tally-put (marks i RedemptionStatus.applied) order_id r db.coupon_redemptions,
          get-put quoted.id i c' db.coupons,
          a.redeemed i c,
          a.redeemed quoted.id quoted,
        );
        limited = λ i c e. ground (arith, get-put quoted.id i c' db.coupons, a.limited i c);
      }

  reserve_points-IsAccounted :
      (points discount : ℕ) (db' : Db)
      → get order_id db.loyalty_redemptions ≡ none
      → reserve_points order_id customer_id points discount db ≡ ok db'
      → IsAccounted db'
  unfolding reserve_points pending_points account_or_new
  reserve_points-IsAccounted points discount db' unused h =
      let r : LoyaltyRedemption = record {
        customer_id = customer_id;
        points = points;
        discount_minor = discount;
        status = RedemptionStatus.reserved;
        applied_at = none;
        released_at = none;
        release_reason = none;
      } in
      record {
        keyed = subst (Keyed (λ c. c.id)) {x = db.coupons} (ground arith) a.keyed;
        points = λ c. grind (
          arith,
          a.points c,
          tally-put (held_points c) order_id r db.loyalty_redemptions,
          get-put,
        );
        reserved = λ i c e. ground (arith, a.reserved i c);
        redeemed = λ i c e. ground (arith, a.redeemed i c);
        limited = λ i c e. ground (arith, a.limited i c);
      }

-- The coupon of a quote, if it has one, is a row of the database.
abbrev pub KnowsCoupon : Option Coupon → Table Coupon → Type 0
KnowsCoupon none coupons = Unit
KnowsCoupon (some c) coupons = get c.id coupons ≡ some c

valid_coupon-known :
    (now customer_id : ℕ) (code : String) (subtotal : ℕ) (db : Db) (c : Coupon)
    → IsAccounted db
    → valid_coupon now customer_id code subtotal db ≡ ok c
    → get c.id db.coupons ≡ some c
unfolding valid_coupon
valid_coupon-known now customer_id code subtotal db c a h =
    get-find (λ c. c.id) (λ c. str_eq c.code code) c db.coupons a.keyed (ground arith)

wanted_coupon-known :
    (texts : Texts) (now customer_id : ℕ) (code : Option String) (subtotal : ℕ) (db : Db)
    (c : Option Coupon)
    → IsAccounted db
    → wanted_coupon texts now customer_id code subtotal db ≡ ok c
    → KnowsCoupon c db.coupons
unfolding wanted_coupon
wanted_coupon-known texts now customer_id code subtotal db none a h = tt
wanted_coupon-known texts now customer_id code subtotal db (some c) a h =
    elim (Option-cases (normalized texts code)) [
      | inl nothing ↦ absurd (ground arith)
      | inr (n, given) ↦ valid_coupon-known now customer_id n subtotal db c a (ground arith)
    ]

price-coupon :
    (settings : Settings) (subtotal : ℕ) (plan : Option SubscriptionPlan) (coupon : Option Coupon)
    (points balance : ℕ) (q : Quote)
    → price settings subtotal plan coupon points balance ≡ ok q
    → q.coupon ≡ coupon
unfolding price
price-coupon settings subtotal plan coupon points balance q h = ground arith

pub quote_cart-known :
    (texts : Texts) (settings : Settings) (now customer_id cart_id : ℕ) (code : Option String)
    (points : ℕ) (db : Db) (q : Quote)
    → IsAccounted db
    → quote_cart texts settings now customer_id cart_id code points db ≡ ok q
    → KnowsCoupon q.coupon db.coupons
unfolding quote_cart
quote_cart-known texts settings now customer_id cart_id code points db q a h =
    let items = lines_of cart_id db.cart_items in
    elim (Checked-cases (quote_lines now items db)) [
      | inl (e, refused) ↦ absurd (ground arith)
      | inr (subtotal, added) ↦
          elim (Checked-cases (wanted_coupon texts now customer_id code subtotal db)) [
            | inl (e, refused) ↦ absurd (ground arith)
            | inr (coupon, valid) ↦
                subst (λ c. KnowsCoupon c db.coupons) {x = coupon} {y = q.coupon}
                  (sym (
                    price-coupon settings subtotal (active_plan now customer_id db.catalog) coupon
                      points (balance_of (get customer_id db.loyalty_accounts)) q (ground arith)))
                  (wanted_coupon-known texts now customer_id code subtotal db coupon a valid)
          ]
    ]

reserve_quoted_coupon-IsAccounted :
    (order_id customer_id : ℕ) (q : Quote) (db db' : Db)
    → IsAccounted db
    → KnowsCoupon q.coupon db.coupons
    → IsUnused order_id db
    → reserve_quoted_coupon order_id customer_id q db ≡ ok db'
    → IsAccounted db' × (get order_id db'.loyalty_redemptions ≡ none)
unfolding reserve_quoted_coupon reserve_coupon
reserve_quoted_coupon-IsAccounted order_id customer_id q db db' a known u h = (
  elim (Option-cases q.coupon) [
    | inl nothing ↦ keeps-IsAccounted {db = db} (ground arith) a
    | inr (c, wanted) ↦ elim (Bool-cases (ltb 0 q.coupon_discount_minor)) [
      | inl some_off ↦
          reserve_coupon-IsAccounted order_id customer_id db a c q.coupon_discount_minor db'
            (subst (λ o. KnowsCoupon o db.coupons) {x = q.coupon} {y = some c} wanted known)
            u.no_coupon (ground arith)
      | inr none_off ↦ keeps-IsAccounted {db = db} (ground arith) a
    ]
  ],
  ground (arith, u.no_points),
)

reserve_quoted_points-IsAccounted :
    (order_id customer_id : ℕ) (q : Quote) (db db' : Db)
    → IsAccounted db
    → get order_id db.loyalty_redemptions ≡ none
    → reserve_quoted_points order_id customer_id q db ≡ ok db'
    → IsAccounted db'
unfolding reserve_quoted_points
reserve_quoted_points-IsAccounted order_id customer_id q db db' a u h =
    elim (Bool-cases (ltb 0 q.loyalty_points_to_redeem)) [
      | inl some_off ↦
          reserve_points-IsAccounted order_id customer_id db a q.loyalty_points_to_redeem
            q.loyalty_discount_minor db' u (ground arith)
      | inr none_off ↦ keeps-IsAccounted {db = db} (ground arith) a
    ]

-- Where the quote's coupon is a row of the database and the order has no redemptions yet, reserving the
-- benefits of a quote keeps every earned point in the balance, waiting or redeemed, and keeps the
-- coupons' counts equal to their redemptions and within their limits.
pub reserve_for_order-IsAccounted :
    (order_id customer_id : ℕ) (q : Quote) (db db' : Db)
    → IsAccounted db
    → KnowsCoupon q.coupon db.coupons
    → IsUnused order_id db
    → reserve_for_order order_id customer_id q db ≡ ok db'
    → IsAccounted db'
unfolding reserve_for_order note_plan
reserve_for_order-IsAccounted order_id customer_id q db db' a known u h =
    elim (Checked-cases (reserve_quoted_coupon order_id customer_id q db)) [
      | inl (e, refused) ↦ absurd (ground arith)
      | inr (db1, one) ↦
          elim (Checked-cases
            (reserve_quoted_points order_id customer_id q (note_plan order_id q db1))) [
              | inl (e, refused) ↦ absurd (ground arith)
              | inr (db2, two) ↦
                  let first =
                    reserve_quoted_coupon-IsAccounted order_id customer_id q db db1 a known u one in
                  keeps-IsAccounted {db = db2} (ground arith) (
                    reserve_quoted_points-IsAccounted order_id customer_id q
                      (note_plan order_id q db1) db2
                      (keeps-IsAccounted {db = db1} (ground arith) first.0)
                      (ground (arith, first.1)) two)
            ]
    ]
