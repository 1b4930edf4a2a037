-- ===== src/Benefits/Once.antt =====
-- Reserved benefits are settled once.
use baytna.Prelude.{ℕ, String, ◌≡◌, Bool, false, Option, none, some, arith}
use baytna.Prelude.Table.{get, get-put_self}
use baytna.Entities.{CouponRedemption, LoyaltyRedemption}
use baytna.Entities.Status.{
  ◌is◌, RedemptionStatus, order_status, task_status, driver_status, stage_status, item_status,
  hold_status, payment_status, order_type_status, special_status, redemption_status,
}
use baytna.Benefits.{release_for_unpaid_order, apply_for_paid_order}
use baytna.Session.{Db}

abbrev coupon_pends : Option CouponRedemption → Bool
coupon_pends none = false
coupon_pends (some r) = r.status is RedemptionStatus.reserved

abbrev points_pend : Option LoyaltyRedemption → Bool
points_pend none = false
points_pend (some r) = r.status is RedemptionStatus.reserved

-- No benefit of the order is still reserved.
pub record IsSettled (order_id : ℕ) (db : Db) : Type 0 where
  pub coupon : coupon_pends (get order_id db.coupon_redemptions) ≡ false
  pub points : points_pend (get order_id db.loyalty_redemptions) ≡ false

-- With nothing reserved, neither operation changes anything.
pub settled_unchanged :
    (now order_id : ℕ) (reason : String) (db : Db)
    → IsSettled order_id db
    → (release_for_unpaid_order now order_id reason db ≡ db)
      × (apply_for_paid_order now order_id db ≡ db)
unfolding release_for_unpaid_order apply_for_paid_order
settled_unchanged now order_id reason db s = (ground arith, ground arith)

pub release-IsSettled :
    (now order_id : ℕ) (reason : String) (db : Db)
    → IsSettled order_id (release_for_unpaid_order now order_id reason db)
unfolding release_for_unpaid_order
release-IsSettled now order_id reason db = grind (arith, get-put_self)

pub apply-IsSettled :
    (now order_id : ℕ) (db : Db) → IsSettled order_id (apply_for_paid_order now order_id db)
unfolding apply_for_paid_order
apply-IsSettled now order_id db = grind (arith, get-put_self)

-- Once an order's benefits are given back or used, neither operation changes anything any more,
-- whatever time and reason it has: points are returned once, and used benefits are not returned.
pub settled_once :
    (now later order_id : ℕ) (reason reason' : String) (db : Db)
    → let released = release_for_unpaid_order now order_id reason db in
      let applied = apply_for_paid_order now order_id db in
      (release_for_unpaid_order later order_id reason' released ≡ released)
      × (apply_for_paid_order later order_id released ≡ released)
      × (release_for_unpaid_order later order_id reason' applied ≡ applied)
      × (apply_for_paid_order later order_id applied ≡ applied)
settled_once now later order_id reason reason' db =
    let released =
      settled_unchanged later order_id reason' _ (release-IsSettled now order_id reason db) in
    let applied = settled_unchanged later order_id reason' _ (apply-IsSettled now order_id db) in
    (released.0, released.1, applied.0, applied.1)
