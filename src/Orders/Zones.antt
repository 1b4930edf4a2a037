-- ===== src/Orders/Zones.antt =====
-- A checkout in a governed zone, and whether the zone sees the order.
use text.Mathlib.Text.{◌==◌ as str_eq}
use text.Mathlib.TextEquality.{eq_iff}
use text.Mathlib.TextPositions.{eq_refl}
use baytna.Prelude.{ℕ, ◌+◌, ◌-◌, String, ◌≡◌, Bool, true, false, Option, some, arith}
use baytna.Prelude.Table.{Table, get, get-put, find-passes}
use baytna.Entities.{Order}
use baytna.Entities.Market.{Address, ExpansionZone}
use baytna.Governance.{
  counts, zone_for_area, area_weight, area_order_count, is_on_day, hour, is_since, chef_order_count,
  Ask, admit_or_raise, attach_admitted_order, allowed,
}
use baytna.Governance.Caps.{
  Inserts, area_order_count-insert, chef_order_count-insert, admit_or_raise-counts, CapsHold,
  admitted-CapsHold,
}
use baytna.Orders.Checkout.{
  CreateOrderRequest, admission, new_order, close_checkout, insert_order, with_prices, place_order,
}
use baytna.Orders.Frame.{new_id-IsUnused}
use baytna.Orders.Lines.{Opened}
use baytna.Orders.Placing.{place_order-Placed}
use baytna.Orders.Safety.{reserving-Keeps, holding-keeps, placed-orders}
use baytna.Session.{Db, new_id, ok}
use baytna.Settings.{Settings, Texts, Platform}
use baytna.Timing.Promise.{promise}

-- An order and its address are added, for the day, the chef and the area of the checkout.
record Added (now : ℕ) (opened : Opened) (a : Address) (db db' : Db) : Type 0 where
  id : ℕ
  order : Order
  inserts : Inserts id order db db'
  address : get id db'.order_addresses ≡ some (record { area = a.area })
  day : order.service_date ≡ opened.service_date
  chef : order.chef_id ≡ opened.chef_id
  since : order.created_at ≡ now
  counted : counts order.status ≡ true

place_order-Added :
    (platform : Platform) (settings : Settings) (now customer_id : ℕ) (payload : CreateOrderRequest)
    (opened : Opened) (a : Address) (event_id : Option ℕ) (db db' : Db)
    → opened.address ≡ some a
    → place_order platform settings now customer_id payload opened event_id db ≡ ok db'
    → Added now opened a db db'
unfolding close_checkout insert_order attach_admitted_order promise
place_order-Added platform settings now customer_id payload opened a event_id db db' at' places =
    let p =
      place_order-Placed platform settings now customer_id payload opened event_id db db' places in
    let id = new_id (with_prices p.validated db) in
    let x = (reserving-Keeps p).0 in
    let y = (holding-keeps p).0 in
    let stored = λ (j : ℕ). get-put id j (record { area = a.area }) db.order_addresses in
    record {
      id = id;
      order = promise p.window (new_order now settings customer_id payload.cart_id opened p.quote);
      inserts = record {
        fresh = (new_id-IsUnused (with_prices p.validated db)).0;
        orders = placed-orders p;
        addresses = λ j far. ground (arith, p.closes, stored j);
      };
      address = ground (arith, p.closes, stored id);
      day = ground arith;
      chef = ground arith;
      since = ground arith;
      counted = ground arith;
    }

-- The zone that is found has the area, but for blanks at its ends and the case of its letters.
zone_for_area-lower :
    (texts : Texts) (area : String) (zones : Table ExpansionZone) (zone : ExpansionZone)
    → zone_for_area texts area zones ≡ some zone
    → texts.lower zone.area ≡ texts.lower (texts.strip area)
unfolding zone_for_area
zone_for_area-lower texts area zones zone h =
    (eq_iff (texts.lower zone.area) (texts.lower (texts.strip area))).0 (
      find-passes (λ z. str_eq (texts.lower z.area) (texts.lower (texts.strip area))) zones zone
        (ground arith))

module _ (platform : Platform) (settings : Settings) (now customer_id : ℕ)
    (payload : CreateOrderRequest) (opened : Opened) (a : Address) (zone : ExpansionZone)
    (event_id : ℕ) (db db1 db' : Db) (at' : opened.address ≡ some a)
    (known : zone_for_area platform.texts a.area db.zones ≡ some zone)
    (allows : admission platform settings now customer_id opened db ≡ allowed event_id db1)
    (places : place_order platform settings now customer_id payload opened (some event_id) db1
      ≡ ok db') where
  abbrev ask : Ask
  ask = record {
    customer_id = customer_id;
    chef_id = opened.chef_id;
    service_date = opened.service_date;
    area = a.area;
  }

  added : Added now opened a db1 db'
  added =
      place_order-Added platform settings now customer_id payload opened a (some event_id) db1 db'
        at' places

  asks : admit_or_raise platform settings now ask db ≡ allowed event_id db1
  unfolding admission
  asks = ground arith

  grows :
      (wanted : Order → Bool)
      → area_order_count platform.texts zone wanted db'
        ≡ area_order_count platform.texts zone wanted db
          + area_weight platform.texts zone.area wanted db'.order_addresses added.id added.order
  unfolding area_order_count
  grows wanted = ground (
    arith,
    admit_or_raise-counts platform settings now event_id ask db db1 asks,
    area_order_count-insert added.id added.order db1 db' added.inserts platform.texts zone wanted,
  )

  weighs :
      (wanted : Order → Bool)
      → platform.texts.strip a.area ≡ a.area
      → wanted added.order ≡ true
      → area_weight platform.texts zone.area wanted db'.order_addresses added.id added.order ≡ 1
  weighs wanted trimmed wants =
      let same = zone_for_area-lower platform.texts a.area db.zones zone known in
      let equal = eq_refl (platform.texts.lower a.area) in
      ground (arith, added.address, added.counted)

  -- Where a zone lets an order in whose area has no blanks at its ends, and the order is placed: the
  -- zone's orders of that day and of the last hour, and the chef's orders of that day, are one more than
  -- before, and within the caps of the zone and its policy.
  pub checkout-CapsHold :
      platform.texts.strip a.area ≡ a.area
      → CapsHold platform settings now ask zone db db'
        × (area_order_count platform.texts zone (is_on_day opened.service_date) db'
            ≡ area_order_count platform.texts zone (is_on_day opened.service_date) db + 1)
        × (area_order_count platform.texts zone (is_since (now - hour)) db'
            ≡ area_order_count platform.texts zone (is_since (now - hour)) db + 1)
        × (chef_order_count opened.chef_id opened.service_date db'
            ≡ chef_order_count opened.chef_id opened.service_date db + 1)
  unfolding chef_order_count
  checkout-CapsHold trimmed = (
    admitted-CapsHold platform settings now event_id ask zone added.id added.order db db1 db' known
        asks added.inserts,
    ground (
      arith,
      grows (is_on_day opened.service_date),
      weighs (is_on_day opened.service_date) trimmed (ground (arith, added.day)),
    ),
    ground (
      arith,
      grows (is_since (now - hour)),
      weighs (is_since (now - hour)) trimmed (ground (arith, added.since)),
    ),
    ground (
      arith,
      added.day,
      added.chef,
      added.counted,
      admit_or_raise-counts platform settings now event_id ask db db1 asks,
      chef_order_count-insert added.id added.order db1 db' added.inserts opened.chef_id
          opened.service_date,
    ),
  )

  -- Where a zone lets an order in and the order is placed, but blanks at the ends of its address's area
  -- make a difference, the zone counts as many orders as before, by whatever test: the new one is not
  -- counted.
  pub checkout_uncounted :
      (wanted : Order → Bool)
      → str_eq (platform.texts.lower a.area) (platform.texts.lower (platform.texts.strip a.area))
        ≡ false
      → area_order_count platform.texts zone wanted db'
        ≡ area_order_count platform.texts zone wanted db
  checkout_uncounted wanted padded =
      let same = zone_for_area-lower platform.texts a.area db.zones zone known in
      ground (arith, grows wanted, added.address)
