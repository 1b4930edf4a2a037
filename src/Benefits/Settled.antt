-- ===== src/Benefits/Settled.antt =====
-- What becomes of the points and the coupon uses of an order that is paid or given up.
use baytna.Prelude.{
  ℕ, String, ◌≡◌, inl, inr, some, arith, Option-cases, refl, ◌∙◌, Bool-cases, subst,
}
use baytna.Prelude.Table.{Table, get, get-put, tally-put, Keyed, Keyed-get, Keyed-put, put}
use baytna.Entities.{Coupon, CouponRedemption, LoyaltyRedemption}
use baytna.Entities.Status.{
  ◌is◌, RedemptionStatus, order_status, task_status, driver_status, stage_status, item_status,
  hold_status, payment_status, order_type_status, special_status, redemption_status,
}
use baytna.Benefits.{
  release_coupon, release_points, apply_coupon, apply_points, free_coupon, use_coupon,
  update_coupon, release_for_unpaid_order, apply_for_paid_order,
}
use baytna.Benefits.Accounts.{
  held_points, pending_points, marks, uses, IsAccounted, keeps-IsAccounted,
}
use baytna.Inventory.Balance.{held}
use baytna.Loyalty.{account_or_new}
use baytna.Session.{Db}

update-Keyed :
    (f : Coupon → Coupon) (id : ℕ) (coupons : Table Coupon)
    → ((c : Coupon) → (f c).id ≡ c.id)
    → Keyed (λ c. c.id) coupons
    → Keyed (λ c. c.id) (update_coupon f id coupons)
update-Keyed f id coupons same a = elim (Option-cases (get id coupons)) [
  | inl gone ↦
      subst (Keyed (λ c. c.id)) {x = coupons} {y = update_coupon f id coupons} (ground arith) a
  | inr (c, there) ↦
      subst (Keyed (λ c. c.id)) {x = put id (f c) coupons} {y = update_coupon f id coupons}
        (ground arith)
        (Keyed-put (λ c. c.id) id (f c) coupons
          (same c ∙ Keyed-get (λ c. c.id) id c coupons a there) a)
]

module _ (now order_id : ℕ) (reason : String) (db : Db) (a : IsAccounted db) where
  release_coupon-IsAccounted : IsAccounted (release_coupon now order_id reason db)
  unfolding release_coupon uses
  release_coupon-IsAccounted = elim (Option-cases (get order_id db.coupon_redemptions)) [
    | inl nothing ↦ keeps-IsAccounted {db = db} (ground arith) a
    | inr (r, found) ↦
        let r' : CouponRedemption = record r {
          status = RedemptionStatus.released;
          released_at = some now;
          release_reason = some reason;
        } in
        record {
          keyed = elim (Bool-cases (r.status is RedemptionStatus.reserved)) [
            | inl held ↦
                subst (Keyed (λ c. c.id)) {x = update_coupon free_coupon r.coupon_id db.coupons}
                  (ground arith)
                  (update-Keyed free_coupon r.coupon_id db.coupons (λ c. refl) a.keyed)
            | inr past ↦ subst (Keyed (λ c. c.id)) {x = db.coupons} (ground arith) a.keyed
          ];
          points = λ c. ground (arith, a.points c);
          reserved = λ i c h. grind (
            arith,
            tally-put (marks i RedemptionStatus.reserved) order_id r' db.coupon_redemptions,
            get-put,
            a.reserved,
          );
          redeemed = λ i c h. grind (
            arith,
            tally-put (marks i RedemptionStatus.applied) order_id r' db.coupon_redemptions,
            get-put,
            a.redeemed,
          );
          limited = λ i c h. elim (Option-cases (get r.coupon_id db.coupons)) [
            | inl gone ↦ ground (arith, a.limited i c)
            | inr (old, there) ↦ ground (
              arith,
              get-put r.coupon_id i (free_coupon old) db.coupons,
              a.limited i c,
              a.limited r.coupon_id old,
            )
          ];
        }
  ]

  release_points-IsAccounted : IsAccounted (release_points now order_id reason db)
  unfolding release_points pending_points account_or_new
  release_points-IsAccounted = elim (Option-cases (get order_id db.loyalty_redemptions)) [
    | inl nothing ↦ keeps-IsAccounted {db = db} (ground arith) a
    | inr (r, found) ↦
        let r' : LoyaltyRedemption = record r {
          status = RedemptionStatus.released;
          released_at = some now;
          release_reason = some reason;
        } in
        record {
          keyed = subst (Keyed (λ c. c.id)) {x = db.coupons} (ground arith) a.keyed;
          points = λ c. grind (
            arith,
            a.points c,
            tally-put (held_points c) order_id r' db.loyalty_redemptions,
            get-put,
          );
          reserved = λ i c h. ground (arith, a.reserved i c);
          redeemed = λ i c h. ground (arith, a.redeemed i c);
          limited = λ i c h. ground (arith, a.limited i c);
        }
  ]

  apply_coupon-IsAccounted : IsAccounted (apply_coupon now order_id db)
  unfolding apply_coupon uses
  apply_coupon-IsAccounted = elim (Option-cases (get order_id db.coupon_redemptions)) [
    | inl nothing ↦ keeps-IsAccounted {db = db} (ground arith) a
    | inr (r, found) ↦
        let r' : CouponRedemption = record r {
          status = RedemptionStatus.applied;
          applied_at = some now;
        } in
        record {
          keyed = elim (Bool-cases (r.status is RedemptionStatus.reserved)) [
            | inl held ↦
                subst (Keyed (λ c. c.id)) {x = update_coupon use_coupon r.coupon_id db.coupons}
                  (ground arith)
                  (update-Keyed use_coupon r.coupon_id db.coupons (λ c. refl) a.keyed)
            | inr past ↦ subst (Keyed (λ c. c.id)) {x = db.coupons} (ground arith) a.keyed
          ];
          points = λ c. ground (arith, a.points c);
          reserved = λ i c h. grind (
            arith,
            tally-put (marks i RedemptionStatus.reserved) order_id r' db.coupon_redemptions,
            get-put,
            a.reserved,
          );
          redeemed = λ i c h. grind (
            arith,
            tally-put (marks i RedemptionStatus.applied) order_id r' db.coupon_redemptions,
            get-put,
            a.redeemed,
          );
          limited = λ i c h. elim (Option-cases (get r.coupon_id db.coupons)) [
            | inl gone ↦ ground (arith, a.limited i c)
            | inr (old, there) ↦ ground (
              arith,
              get-put r.coupon_id i (use_coupon old) db.coupons,
              tally-put (marks i RedemptionStatus.reserved) order_id r' db.coupon_redemptions,
              a.limited i c,
              a.limited r.coupon_id old,
              a.reserved r.coupon_id old,
            )
          ];
        }
  ]

  apply_points-IsAccounted : IsAccounted (apply_points now order_id db)
  unfolding apply_points pending_points account_or_new
  apply_points-IsAccounted = elim (Option-cases (get order_id db.loyalty_redemptions)) [
    | inl nothing ↦ keeps-IsAccounted {db = db} (ground arith) a
    | inr (r, found) ↦
        let r' : LoyaltyRedemption = record r {
          status = RedemptionStatus.applied;
          applied_at = some now;
        } in
        record {
          keyed = subst (Keyed (λ c. c.id)) {x = db.coupons} (ground arith) a.keyed;
          points = λ c. grind (
            arith,
            a.points c,
            tally-put (held_points c) order_id r' db.loyalty_redemptions,
            get-put,
          );
          reserved = λ i c h. ground (arith, a.reserved i c);
          redeemed = λ i c h. ground (arith, a.redeemed i c);
          limited = λ i c h. ground (arith, a.limited i c);
        }
  ]

-- Releasing the benefits of an order that is not paid, and counting them for one that is, keeps every
-- point and every coupon use accounted for.
pub settled-IsAccounted :
    (now order_id : ℕ) (reason : String) (db : Db)
    → IsAccounted db
    → IsAccounted (release_for_unpaid_order now order_id reason db)
      × IsAccounted (apply_for_paid_order now order_id db)
unfolding release_for_unpaid_order apply_for_paid_order
settled-IsAccounted now order_id reason db a = (
  release_points-IsAccounted now order_id reason (release_coupon now order_id reason db)
      (release_coupon-IsAccounted now order_id reason db a),
  apply_points-IsAccounted now order_id reason (apply_coupon now order_id db)
      (apply_coupon-IsAccounted now order_id reason db a),
)
