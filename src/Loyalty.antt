-- ===== src/Loyalty.antt =====
-- `backend/app/modules/loyalty/service.py`: the points for a delivered order.
pub mod Once
use text.Mathlib.Text.{◌==◌ as str_eq}
use baytna.Prelude.{
  ℕ, ◌+◌, ◌*◌, ◌/◌, Option, none, some, Bool, false, ◌&&◌, ◌||◌, List, [], ◌∷◌, ◌==◌, if◌then◌else◌,
}
use baytna.Prelude.Table.{get, put}
use baytna.Entities.{DedupeKey, LoyaltyAccount, LoyaltyTransaction, earn, PricingAdjustment, Order}
use baytna.Journal.{same_key, audit}
use baytna.Session.{Db, Checked, ok, ◌>>◌, raise_if}
use baytna.Settings.{Settings}

-- `LoyaltyService.account`: the row of the customer, or a new one.
unfoldable pub account_or_new : Option LoyaltyAccount → LoyaltyAccount
account_or_new (some a) = a
account_or_new none = record {
  balance_points = 0;
  lifetime_earned_points = 0;
  lifetime_redeemed_points = 0;
}

-- Whether a transaction with the idempotency key exists.
unfoldable pub recorded : DedupeKey → List LoyaltyTransaction → Bool
recorded k [] = false
recorded k (x ∷ xs) = same_key k x.idempotency_key || recorded k xs

-- The multiplier of the order's subscription line, 10000 if it has none.
unfoldable pub multiplier_bps : ℕ → List PricingAdjustment → ℕ
multiplier_bps order_id [] = 10000
multiplier_bps order_id (a ∷ as') =
    if a.order_id == order_id && str_eq a.adjustment_type "subscription"
    then (elim a.loyalty_multiplier_bps [ none ↦ 10000 | some m ↦ m ])
    else multiplier_bps order_id as'

unfoldable pub points_for : Settings → ℕ → Order → Db → ℕ
points_for settings order_id order db =
    order.total_minor
    / settings.loyalty_minor_per_point
    * multiplier_bps order_id db.adjustments
    / 10000

abbrev pub delivery_key : ℕ → DedupeKey
delivery_key order_id = record { prefix = "order-delivered"; id = order_id; stamp = none }

-- `award_for_delivered_order`; a zero divisor raises.
unfoldable pub award_for_delivered_order : Settings → ℕ → Order → Db → Checked Db
unfolding account_or_new
award_for_delivered_order settings order_id order db = do
  raise_if (settings.loyalty_minor_per_point == 0) 500 "zero_division"
  let points = points_for settings order_id order db
  let old : LoyaltyAccount = account_or_new (get order.customer_id db.loyalty_accounts)
  (if points == 0 || recorded (delivery_key order_id) db.loyalty_transactions
      then ok db
      else ok (
          audit "loyalty.points.earned" (some order.customer_id) "order" order_id (record db {
            loyalty_accounts =
                put order.customer_id
                  (record old {
                    balance_points = old.balance_points + points;
                    lifetime_earned_points = old.lifetime_earned_points + points;
                  })
                  db.loyalty_accounts;
            loyalty_transactions =
                record {
                  customer_id = order.customer_id;
                  entry = earn points;
                  idempotency_key = delivery_key order_id;
                }
                ∷ db.loyalty_transactions;
          })))
