-- ===== src/Benefits.antt =====
-- `backend/app/modules/pricing/service.py`: what becomes of the coupon and the points that an order
-- had reserved, once it is paid or given up.
pub mod Once
pub mod Accounts
pub mod Settled
use baytna.Prelude.{ℕ, ◌+◌, ◌-◌, String, none, some, List, ◌∷◌, if◌then◌else◌}
use baytna.Prelude.Table.{Table, get, put}
use baytna.Entities.{DedupeKey, Coupon, LoyaltyAccount, LoyaltyTransaction, redeem}
use baytna.Entities.Status.{
  ◌is◌, RedemptionStatus, order_status, task_status, driver_status, stage_status, item_status,
  hold_status, payment_status, order_type_status, special_status, redemption_status,
}
use baytna.Loyalty.{recorded}
use baytna.Session.{Db}

-- `max(0, n - 1)`
abbrev less_one : ℕ → ℕ
less_one n = n - 1

abbrev pub free_coupon : Coupon → Coupon
free_coupon c = record c { reserved_count = less_one c.reserved_count }

abbrev pub use_coupon : Coupon → Coupon
use_coupon c = record c {
  reserved_count = less_one c.reserved_count;
  redeemed_count = c.redeemed_count + 1;
}

abbrev pub update_coupon : (Coupon → Coupon) → ℕ → Table Coupon → Table Coupon
update_coupon f id coupons = elim (get id coupons) [
  | none ↦ coupons
  | some c ↦ put id (f c) coupons
]

-- The coupon's part of `release_for_unpaid_order`.
unfoldable pub release_coupon : ℕ → ℕ → String → Db → Db
release_coupon now order_id reason db = elim (get order_id db.coupon_redemptions) [
  | none ↦ db
  | some r ↦
      if r.status is RedemptionStatus.reserved
      then record db {
        coupon_redemptions =
            put order_id
              (record r {
                status = RedemptionStatus.released;
                released_at = some now;
                release_reason = some reason;
              })
              db.coupon_redemptions;
        coupons = update_coupon free_coupon r.coupon_id db.coupons;
      }
      else db
]

abbrev refund_points : ℕ → ℕ → Table LoyaltyAccount → Table LoyaltyAccount
refund_points customer points accounts = elim (get customer accounts) [
  | none ↦ accounts
  | some a ↦ put customer (record a { balance_points = a.balance_points + points }) accounts
]

-- The points' part of `release_for_unpaid_order`.
unfoldable pub release_points : ℕ → ℕ → String → Db → Db
release_points now order_id reason db = elim (get order_id db.loyalty_redemptions) [
  | none ↦ db
  | some r ↦
      if r.status is RedemptionStatus.reserved
      then record db {
        loyalty_redemptions =
            put order_id
              (record r {
                status = RedemptionStatus.released;
                released_at = some now;
                release_reason = some reason;
              })
              db.loyalty_redemptions;
        loyalty_accounts = refund_points r.customer_id r.points db.loyalty_accounts;
      }
      else db
]

unfoldable pub release_for_unpaid_order : ℕ → ℕ → String → Db → Db
unfolding release_coupon release_points
release_for_unpaid_order now order_id reason db =
    release_points now order_id reason (release_coupon now order_id reason db)

-- The coupon's part of `apply_for_paid_order`.
unfoldable pub apply_coupon : ℕ → ℕ → Db → Db
apply_coupon now order_id db = elim (get order_id db.coupon_redemptions) [
  | none ↦ db
  | some r ↦
      if r.status is RedemptionStatus.reserved
      then record db {
        coupon_redemptions =
            put order_id (record r { status = RedemptionStatus.applied; applied_at = some now })
              db.coupon_redemptions;
        coupons = update_coupon use_coupon r.coupon_id db.coupons;
      }
      else db
]

abbrev count_redeemed : ℕ → ℕ → Table LoyaltyAccount → Table LoyaltyAccount
count_redeemed customer points accounts = elim (get customer accounts) [
  | none ↦ accounts
  | some a ↦
      put customer (record a { lifetime_redeemed_points = a.lifetime_redeemed_points + points })
        accounts
]

abbrev redeem_key : ℕ → DedupeKey
redeem_key order_id = record { prefix = "order-redeem"; id = order_id; stamp = none }

-- The transaction is added unless its key is taken.
abbrev record_redeemed : ℕ → ℕ → ℕ → List LoyaltyTransaction → List LoyaltyTransaction
record_redeemed order_id customer points txs =
    if recorded (redeem_key order_id) txs
    then txs
    else record {
      customer_id = customer;
      entry = redeem points;
      idempotency_key = redeem_key order_id;
    }
      ∷ txs

-- The points' part of `apply_for_paid_order`.
unfoldable pub apply_points : ℕ → ℕ → Db → Db
apply_points now order_id db = elim (get order_id db.loyalty_redemptions) [
  | none ↦ db
  | some r ↦
      if r.status is RedemptionStatus.reserved
      then record db {
        loyalty_redemptions =
            put order_id (record r { status = RedemptionStatus.applied; applied_at = some now })
              db.loyalty_redemptions;
        loyalty_accounts = count_redeemed r.customer_id r.points db.loyalty_accounts;
        loyalty_transactions =
            record_redeemed order_id r.customer_id r.points db.loyalty_transactions;
      }
      else db
]

unfoldable pub apply_for_paid_order : ℕ → ℕ → Db → Db
unfolding apply_coupon apply_points
apply_for_paid_order now order_id db = apply_points now order_id (apply_coupon now order_id db)
