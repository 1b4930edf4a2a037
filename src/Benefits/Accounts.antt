-- ===== src/Benefits/Accounts.antt =====
-- Loyalty points and coupon uses are accounted for.
use baytna.Prelude.{ℕ, ◌+◌, ◌≡◌, ◌&&◌, none, some, arith, ◌==◌, if◌then◌else◌, Bool, false, ltb}
use baytna.Prelude.Table.{Table, get, tally, Keyed}
use baytna.Entities.{Coupon, CouponRedemption, LoyaltyRedemption}
use baytna.Entities.Status.{
  ◌is◌, RedemptionStatus, order_status, task_status, driver_status, stage_status, item_status,
  hold_status, payment_status, order_type_status, special_status, redemption_status,
}
use baytna.Loyalty.{account_or_new}
use baytna.Session.{Db}

-- The points of a customer that wait with an unpaid order.
abbrev pub held_points : ℕ → ℕ → LoyaltyRedemption → ℕ
held_points customer_id k r =
    if r.customer_id == customer_id && r.status is RedemptionStatus.reserved then r.points else 0

unfoldable pub pending_points : ℕ → Table LoyaltyRedemption → ℕ
pending_points customer_id = tally (held_points customer_id)

-- A redemption of the coupon in the status.
abbrev pub marks : ℕ → RedemptionStatus → ℕ → CouponRedemption → ℕ
marks coupon_id status k r = if r.coupon_id == coupon_id && r.status is status then 1 else 0

unfoldable pub uses : ℕ → RedemptionStatus → Table CouponRedemption → ℕ
uses coupon_id status = tally (marks coupon_id status)

-- More than its limit is reserved or used of the coupon.
abbrev pub is_overdrawn : Coupon → Bool
is_overdrawn c = elim c.total_usage_limit [
  | none ↦ false
  | some limit ↦ ltb limit (c.reserved_count + c.redeemed_count)
]

-- Every point that a customer ever earned is in the balance, waits with an order, or is redeemed.
-- A coupon counts its reservations and its uses, and these stay within its limit.
pub record IsAccounted (db : Db) : Type 0 where
  pub keyed : Keyed (λ c. c.id) db.coupons
  pub points :
      (c : ℕ)
      → (account_or_new (get c db.loyalty_accounts)).balance_points
          + pending_points c db.loyalty_redemptions
          + (account_or_new (get c db.loyalty_accounts)).lifetime_redeemed_points
        ≡ (account_or_new (get c db.loyalty_accounts)).lifetime_earned_points
  pub reserved :
      (k : ℕ) (c : Coupon)
      → get k db.coupons ≡ some c
      → c.reserved_count ≡ uses k RedemptionStatus.reserved db.coupon_redemptions
  pub redeemed :
      (k : ℕ) (c : Coupon)
      → get k db.coupons ≡ some c
      → c.redeemed_count ≡ uses k RedemptionStatus.applied db.coupon_redemptions
  pub limited : (k : ℕ) (c : Coupon) → get k db.coupons ≡ some c → is_overdrawn c ≡ false

-- An operation that writes to no benefit.
pub record KeepsBenefits (db db' : Db) : Type 0 where
  pub accounts : db'.loyalty_accounts ≡ db.loyalty_accounts
  pub points : db'.loyalty_redemptions ≡ db.loyalty_redemptions
  pub coupons : db'.coupons ≡ db.coupons
  pub uses : db'.coupon_redemptions ≡ db.coupon_redemptions

pub keeps-IsAccounted : {db db' : Db} → KeepsBenefits db db' → IsAccounted db → IsAccounted db'
keeps-IsAccounted {db} {db'} k a = record {
  keyed = rw k.coupons a.keyed;
  points = λ c. ground (arith, a.points c);
  reserved = λ i c h. ground (arith, a.reserved i c);
  redeemed = λ i c h. ground (arith, a.redeemed i c);
  limited = λ i c h. ground (arith, a.limited i c);
}
