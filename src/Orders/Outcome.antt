-- ===== src/Orders/Outcome.antt =====
-- What a checkout leaves behind.
use baytna.Prelude.{ℕ, ◌+◌, ◌*◌, ◌≤◌, ◌≡◌, Option, none, some, arith}
use baytna.Prelude.Table.{get, get-put_self}
use baytna.Entities.{Order}
use baytna.Entities.Status.{OrderStatus}
use baytna.Governance.{attach_admitted_order}
use baytna.Inventory.{lesser}
use baytna.Orders.Checkout.{
  CreateOrderRequest, new_order, close_checkout, insert_order, with_prices, place_order,
}
use baytna.Orders.Contents.{billed, held_for, asked, hold_lines-holds, validate_lines-asked}
use baytna.Orders.Frame.{reserve_for_order-Keeps, new_id-IsUnused}
use baytna.Orders.Lines.{Opened}
use baytna.Orders.Placing.{inserted, place_order-Placed}
use baytna.Orders.Safety.{placed-orders}
use baytna.Pricing.Bounds.{quote_cart-adds_up}
use baytna.Session.{Db, new_id, ok}
use baytna.Settings.{Settings, Platform, minute}
use baytna.Timing.Promise.{promise}

-- An order for the lines, which is not paid yet.
pub record IsOrdered (id : ℕ) (settings : Settings) (customer_id : ℕ) (opened : Opened)
    (db db' : Db) : Type 0 where
  pub unused : get id db.orders ≡ none
  pub order : Order
  pub found : get id db'.orders ≡ some order
  pub waiting : order.status ≡ OrderStatus.pending_payment
  pub customer : order.customer_id ≡ customer_id
  pub chef : order.chef_id ≡ opened.chef_id
  pub adds_up : order.discount_minor + order.total_minor ≡ order.subtotal_minor
  pub payable : lesser order.subtotal_minor settings.minimum_payable_minor ≤ order.total_minor
  pub bill : billed id db'.order_items ≡ billed id db.order_items + order.subtotal_minor
  pub holds_lines :
      (k : ℕ)
      → held_for id k db'.reservations ≡ held_for id k db.reservations + asked k opened.lines

-- An order that is placed is new and waits for its payment. Its discount and its price make up its
-- subtotal, of which at least the minimum, or the whole subtotal if that is less, stays to be paid; the
-- items that are added to it make up the subtotal; and of every menu item the quantity that the lines of
-- the cart ask for is added to its holds.
pub place_order-IsOrdered :
    (platform : Platform) (settings : Settings) (now customer_id : ℕ) (payload : CreateOrderRequest)
    (opened : Opened) (event_id : Option ℕ) (db db' : Db)
    → place_order platform settings now customer_id payload opened event_id db ≡ ok db'
    → (id : ℕ) × IsOrdered id settings customer_id opened db db'
unfolding close_checkout insert_order attach_admitted_order promise
place_order-IsOrdered platform settings now customer_id payload opened event_id db db' h =
    let p = place_order-Placed platform settings now customer_id payload opened event_id db db' h in
    let priced = with_prices p.validated db in
    let id = new_id priced in
    let order =
      promise p.window (new_order now settings customer_id payload.cart_id opened p.quote) in
    let sums =
      quote_cart-adds_up platform.texts settings now customer_id payload.cart_id payload.coupon_code
        payload.loyalty_points_to_redeem priced p.quote p.quotes in
    let start =
      inserted platform settings now customer_id payload opened event_id db p.validated p.quote
        p.window in
    let kept = reserve_for_order-Keeps id customer_id p.quote start p.reserved p.reserves in
    let holds_all = λ (k : ℕ).
      hold_lines-holds id (now + settings.inventory_hold_ttl_minutes * minute) k p.validated
        p.reserved p.held_db p.holds_lines in
    (
      id,
      record {
        unused = (new_id-IsUnused priced).0;
        order = order;
        found = ground (arith, placed-orders p, get-put_self id order db.orders);
        waiting = ground arith;
        customer = ground arith;
        chef = ground arith;
        adds_up = ground (arith, sums.0);
        payable = ground (arith, sums.1);
        bill = ground (arith, p.closes, kept.2, (holds_all 0).0, p.agrees);
        holds_lines = λ k. ground (
          arith,
          p.closes,
          kept.1,
          (holds_all k).1,
          validate_lines-asked now opened k opened.lines db p.validated p.validates,
        );
      },
    )
