-- ===== src/Governance.antt =====
-- `backend/app/modules/launch_governance/service.py`: whether a zone admits another order.
pub mod Caps
use text.Mathlib.Text.{◌==◌ as str_eq}
use baytna.Prelude.{
  ℕ, ◌+◌, ◌-◌, ◌*◌, ◌%◌, String, Bool, true, false, not, ◌&&◌, ◌||◌, Option, none, some, List, [],
  ◌∷◌, ltb, leb, ◌==◌, if◌then◌else◌, ◌≡◌, refl, ◌⊎◌, inl, inr,
}
use baytna.Prelude.Table.{Table, get, put, find, tally}
use baytna.Entities.{Order}
use baytna.Entities.Market.{
  OrderDeliveryAddress, ZoneStatus, RolloutStage, ExpansionZone, ZoneTrafficPolicy, AdmissionReason,
  ZoneAdmissionEvent, zone_status, rollout_status, admission_reason,
}
use baytna.Entities.Status.{
  ◌is◌, OrderStatus, order_status, task_status, driver_status, stage_status, item_status,
  hold_status, payment_status, order_type_status, special_status, redemption_status,
}
use baytna.Journal.{audit}
use baytna.Session.{Db}
use baytna.Settings.{Settings, Texts, Platform, minute}

-- ACTIVE_ORDER_STATUSES
abbrev pub counts : OrderStatus → Bool
counts OrderStatus.cancelled = false
counts OrderStatus.expired = false
counts _ = true

-- `zone_for_area`
unfoldable pub zone_for_area : Texts → String → Table ExpansionZone → Option ExpansionZone
zone_for_area texts area zones =
    let trimmed = texts.strip area in
    if str_eq trimmed ""
    then none
    else find (λ z. str_eq (texts.lower z.area) (texts.lower trimmed)) zones

-- `_new_policy`
abbrev pub new_policy : Settings → ZoneTrafficPolicy
new_policy settings = record {
  is_enabled = true;
  hourly_order_cap = some settings.traffic_default_hourly_order_cap;
  chef_daily_order_cap = some settings.traffic_default_chef_daily_order_cap;
  enforce_rollout_bucket = true;
}

-- `policy`, for a zone that exists: its row is made where it is missing.
unfoldable pub policy : Settings → ℕ → Table ZoneTrafficPolicy → ZoneTrafficPolicy
policy settings zone_id policies = elim (get zone_id policies) [
  | none ↦ new_policy settings
  | some p ↦ p
]

-- `func.lower(OrderDeliveryAddressEntity.area) == zone.area.lower()`, for the address of an order.
abbrev pub is_in_area : Texts → String → Option OrderDeliveryAddress → Bool
is_in_area texts area none = false
is_in_area texts area (some a) = str_eq (texts.lower a.area) (texts.lower area)

abbrev pub area_weight :
    Texts → String → (Order → Bool) → Table OrderDeliveryAddress → ℕ → Order → ℕ
area_weight texts area wanted addresses order_id o =
    if is_in_area texts area (get order_id addresses) && counts o.status && wanted o then 1 else 0

-- `_area_order_count`, with the optional conditions as a test.
unfoldable pub area_order_count : Texts → ExpansionZone → (Order → Bool) → Db → ℕ
area_order_count texts zone wanted db =
    tally (area_weight texts zone.area wanted db.order_addresses) db.orders

abbrev pub is_on_day : ℕ → Order → Bool
is_on_day service_date o = o.service_date == service_date

-- `timedelta(hours=1)`
abbrev pub hour : ℕ
hour = 60 * minute

abbrev pub is_since : ℕ → Order → Bool
is_since t o = leb t o.created_at

abbrev pub chef_weight : ℕ → ℕ → ℕ → Order → ℕ
chef_weight chef_id service_date order_id o =
    if o.chef_id == chef_id && o.service_date == service_date && counts o.status then 1 else 0

-- `_chef_order_count`; a checkout excludes no order.
unfoldable pub chef_order_count : ℕ → ℕ → Db → ℕ
chef_order_count chef_id service_date db = tally (chef_weight chef_id service_date) db.orders

-- `cap is not None and usage >= cap`
abbrev pub reaches : Option ℕ → ℕ → Bool
reaches none usage = false
reaches (some cap) usage = leb cap usage

abbrev pub rolls_out : RolloutStage → Bool
rolls_out RolloutStage.canary = true
rolls_out RolloutStage.limited = true
rolls_out RolloutStage.full = true
rolls_out _ = false

-- The chain of conditions of `admit_or_raise`, on the bucket and the usage of the day, of the hour and
-- of the chef.
unfoldable pub decide_reason : ExpansionZone → ZoneTrafficPolicy → ℕ → ℕ → ℕ → ℕ → AdmissionReason
decide_reason zone p bucket daily hourly chef =
    if not p.is_enabled
    then AdmissionReason.traffic_policy_disabled
    else if zone.status is ZoneStatus.paused || zone.rollout_stage is RolloutStage.paused
    then AdmissionReason.zone_paused
    else if not (zone.status is ZoneStatus.live) || not (rolls_out zone.rollout_stage)
    then AdmissionReason.rollout_not_live
    else if p.enforce_rollout_bucket
        && ltb zone.rollout_percent 100
        && leb zone.rollout_percent bucket
    then AdmissionReason.outside_rollout_bucket
    else if reaches zone.daily_order_cap daily
    then AdmissionReason.zone_daily_cap_reached
    else if reaches p.hourly_order_cap hourly
    then AdmissionReason.zone_hourly_cap_reached
    else if reaches p.chef_daily_order_cap chef
    then AdmissionReason.chef_daily_cap_reached
    else AdmissionReason.admitted

-- How an admission ends: an ungoverned area, an event that waits for its order, or a refusal that is
-- committed before the request raises 409 expansion_capacity_unavailable.
pub data Admission : Type 0 where
  ungoverned : Admission
  allowed : ℕ → Db → Admission
  turned_away : Db → Admission

pub Admission-cases :
    (a : Admission)
    → (a ≡ ungoverned)
      ⊎ (((e : ℕ) × (db : Db) × (a ≡ allowed e db)) ⊎ ((db : Db) × (a ≡ turned_away db)))
Admission-cases ungoverned = inl refl
Admission-cases (allowed e db) = inr (inl (e, db, refl))
Admission-cases (turned_away db) = inr (inr (db, refl))

-- Who asks for an order, of which chef, and for which day and area.
pub record Ask : Type 0 where
  pub customer_id : ℕ
  pub chef_id : ℕ
  pub service_date : ℕ
  pub area : String

-- `rollout_bucket`
unfoldable pub rollout_bucket : Platform → ℕ → ℕ → ℕ
rollout_bucket platform zone_id customer_id = platform.digest zone_id customer_id % 100

-- The event that `admit_or_raise` records in a governed zone.
unfoldable pub decided : Platform → Settings → ℕ → Ask → ExpansionZone → Db → ZoneAdmissionEvent
decided platform settings now ask zone db =
    let p = policy settings zone.id db.policies in
    let bucket = rollout_bucket platform zone.id ask.customer_id in
    let daily = area_order_count platform.texts zone (is_on_day ask.service_date) db in
    let hourly = area_order_count platform.texts zone (is_since (now - hour)) db in
    let chef = chef_order_count ask.chef_id ask.service_date db in
    let reason = decide_reason zone p bucket daily hourly chef in
    record {
      id = db.next_id;
      zone_id = zone.id;
      order_id = none;
      customer_id = ask.customer_id;
      chef_id = ask.chef_id;
      service_date = ask.service_date;
      area = platform.texts.strip (if str_eq ask.area "" then zone.area else ask.area);
      decision = (if reason is AdmissionReason.admitted then "admitted" else "rejected");
      reason = reason;
      rollout_stage = zone.rollout_stage;
      rollout_percent = zone.rollout_percent;
      rollout_bucket = bucket;
      daily_cap = zone.daily_order_cap;
      daily_usage_before = daily;
      hourly_cap = p.hourly_order_cap;
      hourly_usage_before = hourly;
      chef_daily_cap = p.chef_daily_order_cap;
      chef_usage_before = chef;
    }

-- `_record_event`, and the policy that was made if there was none.
unfoldable pub record_event : Settings → ZoneAdmissionEvent → Db → Db
record_event settings e db = record db {
  next_id = db.next_id + 1;
  policies = put e.zone_id (policy settings e.zone_id db.policies) db.policies;
  admissions = e ∷ db.admissions;
}

-- `admit_or_raise`
unfoldable pub admit_or_raise : Platform → Settings → ℕ → Ask → Db → Admission
unfolding decided record_event
admit_or_raise platform settings now ask db =
    elim (zone_for_area platform.texts ask.area db.zones) [
      | none ↦ ungoverned
      | some zone ↦
          let e = decided platform settings now ask zone db in
          let db1 = record_event settings e db in
          if e.reason is AdmissionReason.admitted
          then allowed e.id db1
          else turned_away (
              audit "traffic.admission.rejected" (some ask.customer_id) "expansion_zone" zone.id
                db1)
    ]

-- `reservation.event.order_id = order_id`
unfoldable pub attach : ℕ → ℕ → List ZoneAdmissionEvent → List ZoneAdmissionEvent
attach event_id order_id [] = []
attach event_id order_id (e ∷ es) =
    let rest = attach event_id order_id es in
    (if e.id == event_id then record e { order_id = some order_id } else e) ∷ rest

-- `attach_admitted_order`
unfoldable pub attach_admitted_order : Option ℕ → ℕ → ℕ → Db → Db
unfolding attach
attach_admitted_order none order_id customer_id db = db
attach_admitted_order (some event_id) order_id customer_id db =
    audit "traffic.admission.admitted" (some customer_id) "order" order_id
      (record db { admissions = attach event_id order_id db.admissions })
