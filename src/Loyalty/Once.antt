-- ===== src/Loyalty/Once.antt =====
-- An order earns its points once.
use text.Mathlib.TextPositions.{eq_refl}
use baytna.Prelude.{ℕ, ◌≡◌, arith}
use baytna.Entities.{Order}
use baytna.Loyalty.{recorded, points_for, award_for_delivered_order}
use baytna.Session.{Db, ok}
use baytna.Settings.{Settings}

-- Once the points of an order are awarded, a second award changes nothing.
pub award_once :
    (settings : Settings) (order_id : ℕ) (o : Order) (db db' : Db)
    → award_for_delivered_order settings order_id o db ≡ ok db'
    → award_for_delivered_order settings order_id o db' ≡ ok db'
unfolding award_for_delivered_order points_for recorded
award_once settings order_id o db db' h = ground (arith, eq_refl "order-delivered")
