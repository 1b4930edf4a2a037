-- ===== src/Governance/Caps.antt =====
-- The caps of a zone hold after the order that it admits.
use baytna.Prelude.{
  ℕ, ◌+◌, ◌-◌, ◌≤◌, String, ◌≡◌, refl, Bool, false, Option, none, some, arith, ltb, ◌==◌,
}
use baytna.Prelude.Table.{Table, get, put, tally, tally-away, tally-new}
use baytna.Entities.{Order}
use baytna.Entities.Market.{
  OrderDeliveryAddress, ExpansionZone, ZoneTrafficPolicy, AdmissionReason, AdmissionReason-discrete,
}
use baytna.Governance.{
  zone_for_area, policy, area_weight, area_order_count, is_on_day, hour, is_since, chef_weight,
  chef_order_count, decide_reason, Ask, rollout_bucket, admit_or_raise, allowed, decided,
  record_event,
}
use baytna.Session.{Db}
use baytna.Settings.{Settings, Texts, Platform}

-- `usage > cap`, where there is a cap.
abbrev pub exceeds : Option ℕ → ℕ → Bool
exceeds none usage = false
exceeds (some cap) usage = ltb cap usage

decide_reason-admitted :
    (zone : ExpansionZone) (p : ZoneTrafficPolicy) (bucket daily hourly chef : ℕ)
    → decide_reason zone p bucket daily hourly chef ≡ AdmissionReason.admitted
    → (exceeds zone.daily_order_cap (daily + 1) ≡ false)
      × (exceeds p.hourly_order_cap (hourly + 1) ≡ false)
      × (exceeds p.chef_daily_order_cap (chef + 1) ≡ false)
unfolding decide_reason
decide_reason-admitted zone p bucket daily hourly chef h =
    (ground arith, ground arith, ground arith)

-- Counting less exceeds no more.
exceeds-less : (cap : Option ℕ) (m n : ℕ) → m ≤ n → exceeds cap n ≡ false → exceeds cap m ≡ false
exceeds-less none m n l h = refl
exceeds-less (some c) m n l h = ground arith

-- A new order with its address adds its own weight to the orders of an area.
area-insert :
    (texts : Texts) (area : String) (wanted : Order → Bool) (id : ℕ) (o : Order)
    (addresses addresses' : Table OrderDeliveryAddress) (orders : Table Order)
    → get id orders ≡ none
    → ((j : ℕ) → (j == id) ≡ false → get j addresses' ≡ get j addresses)
    → tally (area_weight texts area wanted addresses') (put id o orders)
      ≡ tally (area_weight texts area wanted addresses) orders
        + area_weight texts area wanted addresses' id o
area-insert texts area wanted id o addresses addresses' orders fresh same = ground (
  arith,
  tally-new (area_weight texts area wanted addresses') id o orders fresh,
  tally-away (area_weight texts area wanted addresses') (area_weight texts area wanted addresses) id
      orders fresh (λ j v far. ground (arith, same j far)),
)

chef-insert :
    (chef_id date id : ℕ) (o : Order) (orders : Table Order)
    → get id orders ≡ none
    → tally (chef_weight chef_id date) (put id o orders)
      ≡ tally (chef_weight chef_id date) orders + chef_weight chef_id date id o
chef-insert chef_id date id o orders fresh = tally-new (chef_weight chef_id date) id o orders fresh

-- A database that differs by one order and its address.
pub record Inserts (id : ℕ) (o : Order) (db db' : Db) : Type 0 where
  pub fresh : get id db.orders ≡ none
  pub orders : db'.orders ≡ put id o db.orders
  pub addresses : (j : ℕ) → (j == id) ≡ false → get j db'.order_addresses ≡ get j db.order_addresses

module _ (id : ℕ) (o : Order) (db db' : Db) (i : Inserts id o db db') where
  pub area_order_count-insert :
      (texts : Texts) (zone : ExpansionZone) (wanted : Order → Bool)
      → area_order_count texts zone wanted db'
        ≡ area_order_count texts zone wanted db
          + area_weight texts zone.area wanted db'.order_addresses id o
  unfolding area_order_count
  area_order_count-insert texts zone wanted = ground (
    arith,
    i.orders,
    area-insert texts zone.area wanted id o db.order_addresses db'.order_addresses db.orders i.fresh
        i.addresses,
  )

  pub chef_order_count-insert :
      (chef_id date : ℕ)
      → chef_order_count chef_id date db'
        ≡ chef_order_count chef_id date db + chef_weight chef_id date id o
  unfolding chef_order_count
  chef_order_count-insert chef_id date =
      ground (arith, i.orders, chef-insert chef_id date id o db.orders i.fresh)

-- An admission writes no order.
pub admit_or_raise-counts :
    (platform : Platform) (settings : Settings) (now event_id : ℕ) (ask : Ask) (db db1 : Db)
    → admit_or_raise platform settings now ask db ≡ allowed event_id db1
    → (db1.orders ≡ db.orders) × (db1.order_addresses ≡ db.order_addresses)
unfolding admit_or_raise record_event
admit_or_raise-counts platform settings now event_id ask db db1 h = ground arith

-- What a zone's policy allows of a day, of the last hour, and of the chef's day.
abbrev pub CapsHold : Platform → Settings → ℕ → Ask → ExpansionZone → Db → Db → Type 0
CapsHold platform settings now ask zone db db' =
    let p = policy settings zone.id db.policies in
    (exceeds zone.daily_order_cap
        (area_order_count platform.texts zone (is_on_day ask.service_date) db')
      ≡ false)
    × (exceeds p.hourly_order_cap (area_order_count platform.texts zone (is_since (now - hour)) db')
        ≡ false)
    × (exceeds p.chef_daily_order_cap (chef_order_count ask.chef_id ask.service_date db') ≡ false)

pub admitted-CapsHold :
    (platform : Platform) (settings : Settings) (now event_id : ℕ) (ask : Ask)
    (zone : ExpansionZone) (id : ℕ) (o : Order) (db db1 db' : Db)
    → zone_for_area platform.texts ask.area db.zones ≡ some zone
    → admit_or_raise platform settings now ask db ≡ allowed event_id db1
    → Inserts id o db1 db'
    → CapsHold platform settings now ask zone db db'
unfolding admit_or_raise decided record_event area_order_count chef_order_count
    AdmissionReason-discrete
admitted-CapsHold platform settings now event_id ask zone id o db db1 db' known allows i =
    let texts = platform.texts in
    let p = policy settings zone.id db.policies in
    let on_day = is_on_day ask.service_date in
    let since = is_since (now - hour) in
    let day = area_order_count texts zone on_day db in
    let last = area_order_count texts zone since db in
    let chef = chef_order_count ask.chef_id ask.service_date db in
    let caps =
      decide_reason-admitted zone p (rollout_bucket platform zone.id ask.customer_id) day last chef
        (ground arith) in
    let same = admit_or_raise-counts platform settings now event_id ask db db1 allows in
    (
      exceeds-less zone.daily_order_cap (area_order_count texts zone on_day db') (day + 1)
          (ground (arith, same, area_order_count-insert id o db1 db' i texts zone on_day)) caps.0,
      exceeds-less p.hourly_order_cap (area_order_count texts zone since db') (last + 1)
          (ground (arith, same, area_order_count-insert id o db1 db' i texts zone since)) caps.1,
      exceeds-less p.chef_daily_order_cap (chef_order_count ask.chef_id ask.service_date db')
          (chef + 1)
          (ground
            (arith, same, chef_order_count-insert id o db1 db' i ask.chef_id ask.service_date))
          caps.2,
    )
