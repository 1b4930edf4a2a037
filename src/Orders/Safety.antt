-- ===== src/Orders/Safety.antt =====
-- A checkout keeps the deliveries, the stock, the refunds and the benefits in order.
use baytna.Prelude.{ℕ, ◌+◌, ◌*◌, ◌≡◌, Option, arith, subst}
use baytna.Prelude.Table.{put, get-put}
use baytna.Entities.{Order}
use baytna.Benefits.Accounts.{KeepsBenefits, IsAccounted, keeps-IsAccounted}
use baytna.Delivery.Apart.{Apart}
use baytna.Governance.{attach_admitted_order}
use baytna.Inventory.Balance.{IsBalanced}
use baytna.Orders.Checkout.{
  CreateOrderRequest, new_order, close_checkout, insert_order, with_prices,
}
use baytna.Orders.Frame.{
  KeepsOrders, Keeps, reserve_for_order-Keeps, hold_lines-keeps, hold_lines-IsBalanced,
  new_id-IsUnused, new_id-above,
}
use baytna.Orders.Holds.{keeps-IsBalanced}
use baytna.Orders.Lines.{Opened}
use baytna.Orders.Placing.{inserted, Placed}
use baytna.Pricing.Points.{KnowsCoupon, quote_cart-known, reserve_for_order-IsAccounted}
use baytna.Session.{Db, new_id}
use baytna.Settings.{Settings, Platform, minute}
use baytna.Timing.Promise.{promise}

module _ {platform : Platform} {settings : Settings} {now customer_id : ℕ}
    {payload : CreateOrderRequest} {opened : Opened} {event_id : Option ℕ} {db db' : Db}
    (p : Placed platform settings now customer_id payload opened event_id db db') where
  -- What happens between the insertion of the order and the end.
  pub reserving-Keeps :
      Keeps
        (inserted platform settings now customer_id payload opened event_id db p.validated p.quote
          p.window)
        p.reserved
  reserving-Keeps =
      reserve_for_order-Keeps (new_id (with_prices p.validated db)) customer_id p.quote
        (inserted platform settings now customer_id payload opened event_id db p.validated p.quote
          p.window)
        p.reserved p.reserves

  pub holding-keeps : KeepsOrders p.reserved p.held_db × KeepsBenefits p.reserved p.held_db
  holding-keeps =
      hold_lines-keeps (new_id (with_prices p.validated db))
        (now + settings.inventory_hold_ttl_minutes * minute) p.validated p.reserved p.held_db
        p.holds_lines

  abbrev placed_order : Order
  placed_order =
      promise p.window (new_order now settings customer_id payload.cart_id opened p.quote)

  pub placed-orders : db'.orders ≡ put (new_id (with_prices p.validated db)) placed_order db.orders
  unfolding close_checkout insert_order attach_admitted_order
  placed-orders = let x = reserving-Keeps.0 in let y = holding-keeps.0 in ground (arith, p.closes)

  pub placed-Apart : Apart db db'
  unfolding close_checkout insert_order attach_admitted_order
  placed-Apart =
      let x = reserving-Keeps.0 in
      let y = holding-keeps.0 in
      let id = new_id (with_prices p.validated db) in
      record {
        tasks = ground (arith, p.closes);
        ids = ground (arith, p.closes, new_id-above (with_prices p.validated db));
        orders = λ k o h r. ground (
          arith,
          placed-orders,
          get-put id k placed_order db.orders,
          (new_id-IsUnused (with_prices p.validated db)).0,
        );
      }

  pub placed-payments : db'.payments ≡ db.payments
  unfolding close_checkout insert_order attach_admitted_order
  placed-payments = let x = reserving-Keeps.0 in let y = holding-keeps.0 in ground (arith, p.closes)

  pub placed-IsBalanced : IsBalanced db → IsBalanced db'
  unfolding close_checkout insert_order attach_admitted_order
  placed-IsBalanced b = keeps-IsBalanced {db = p.held_db} (ground (arith, p.closes)) (
      hold_lines-IsBalanced (new_id (with_prices p.validated db))
        (now + settings.inventory_hold_ttl_minutes * minute) p.validated p.reserved p.held_db
        (keeps-IsBalanced {db = db} (let s = reserving-Keeps.1 in ground arith) b) p.holds_lines)

  pub placed-IsAccounted : IsAccounted db → IsAccounted db'
  unfolding close_checkout insert_order attach_admitted_order
  placed-IsAccounted a =
      let id = new_id (with_prices p.validated db) in
      let priced = with_prices p.validated db in
      let start =
        inserted platform settings now customer_id payload opened event_id db p.validated p.quote
          p.window in
      let a1 : IsAccounted priced = keeps-IsAccounted {db = db} (ground arith) a in
      let known =
        quote_cart-known platform.texts settings now customer_id payload.cart_id payload.coupon_code
          payload.loyalty_points_to_redeem priced p.quote a1 p.quotes in
      let unused = new_id-IsUnused priced in
      keeps-IsAccounted {db = p.held_db} (ground (arith, p.closes)) (
        keeps-IsAccounted {db = p.reserved} holding-keeps.1 (
          reserve_for_order-IsAccounted id customer_id p.quote start p.reserved
            (keeps-IsAccounted {db = priced} (ground arith) a1)
            (subst (KnowsCoupon p.quote.coupon) {x = db.coupons} {y = start.coupons} (ground arith)
              known)
            (record { no_coupon = ground (arith, unused.2); no_points = ground (arith, unused.3) })
            p.reserves))
