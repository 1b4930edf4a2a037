-- ===== src/Specials/Schedule.antt =====
-- When a chef takes special orders, and how many (`backend/app/modules/special_orders/service.py`).
use Prim.Native.Nat.{Ordering}
use Prim.Native.String.{compare}
use text.Mathlib.Text.{◌==◌ as str_eq}
use baytna.Prelude.{
  ℕ, ◌+◌, ◌-◌, ◌/◌, ◌%◌, String, Bool, true, false, not, ◌&&◌, ◌||◌, Option, none, some, List, [],
  ◌∷◌, ltb, ◌==◌, if◌then◌else◌,
}
use baytna.Prelude.Table.{Table, get, tally}
use baytna.Entities.{SpecialOrderRequest}
use baytna.Entities.Market.{ChefProfile, ChefWeeklySchedule, ChefScheduleOverride, Catalog}
use baytna.Entities.Status.{SpecialStatus}
use baytna.Session.{Db, Checked, ◌>>=◌, ◌>>◌, raise_if, or_raise, ok}
use baytna.Settings.{Settings}

-- `date.weekday()`, of a day by its ordinal number.
abbrev pub weekday : ℕ → ℕ
weekday d = (d + 6) % 7

unfoldable pub weekly_for : ℕ → ℕ → List ChefWeeklySchedule → Option ChefWeeklySchedule
weekly_for chef_id service_date [] = none
weekly_for chef_id service_date (w ∷ ws) =
    if w.chef_id == chef_id && w.weekday == weekday service_date
    then some w
    else weekly_for chef_id service_date ws

unfoldable pub override_for : ℕ → ℕ → List ChefScheduleOverride → Option ChefScheduleOverride
override_for chef_id service_date [] = none
override_for chef_id service_date (o ∷ os) =
    if o.chef_id == chef_id && o.service_date == service_date
    then some o
    else override_for chef_id service_date os

pub record Rule : Type 0 where
  pub is_available : Bool
  pub window_start : Option String
  pub window_end : Option String
  pub capacity : ℕ

-- `x if x is not None else default`
abbrev pub or_else {ℓ} : {A : Type ℓ} → Option A → A → A
or_else none default = default
or_else (some a) default = a

abbrev pub or_option {ℓ} : {A : Type ℓ} → Option A → Option A → Option A
or_option none other = other
or_option (some a) other = some a

abbrev weekly_rule : Option ChefWeeklySchedule → Rule
weekly_rule none = record {
  is_available = false;
  window_start = none;
  window_end = none;
  capacity = 0;
}
weekly_rule (some w) = record {
  is_available = w.is_available;
  window_start = w.delivery_window_start;
  window_end = w.delivery_window_end;
  capacity = w.max_special_orders;
}

-- `_schedule_rule`: an override of the day goes before the week's rule.
unfoldable pub schedule_rule : ℕ → ℕ → Catalog → Rule
schedule_rule chef_id service_date c =
    let week = weekly_rule (weekly_for chef_id service_date c.schedules) in
    elim (override_for chef_id service_date c.overrides) [
      | none ↦ week
      | some o ↦ record {
        is_available = o.is_available;
        window_start = or_option o.delivery_window_start week.window_start;
        window_end = or_option o.delivery_window_end week.window_end;
        capacity = or_else o.max_special_orders week.capacity;
      }
    ]

-- ACTIVE_CAPACITY_STATUSES
abbrev pub takes_capacity : SpecialStatus → Bool
takes_capacity SpecialStatus.chef_review = true
takes_capacity SpecialStatus.counter_offer = true
takes_capacity SpecialStatus.awaiting_payment = true
takes_capacity SpecialStatus.scheduled = true
takes_capacity _ = false

-- `final_service_date or proposed_service_date or requested_service_date`
abbrev pub effective_date : SpecialOrderRequest → ℕ
effective_date r =
    or_else r.final_service_date (or_else r.proposed_service_date r.requested_service_date)

abbrev pub capacity_weight : ℕ → ℕ → Option ℕ → ℕ → SpecialOrderRequest → ℕ
capacity_weight chef_id service_date excluded k r =
    if r.chef_id == chef_id
      && takes_capacity r.status
      && effective_date r == service_date
      && (elim excluded [ none ↦ true | some e ↦ not (k == e) ])
    then 1
    else 0

-- `_capacity_used`
unfoldable pub capacity_used : ℕ → ℕ → Option ℕ → Table SpecialOrderRequest → ℕ
capacity_used chef_id service_date excluded = tally (capacity_weight chef_id service_date excluded)

-- `requested_start < window_start`, where both are given.
abbrev pub starts_before : Option String → Option String → Bool
starts_before (some a) (some b) =
    not (str_eq a "")
    && not (str_eq b "")
    && (elim (compare a b) [ Ordering.lt ↦ true | _ ↦ false ])
starts_before _ _ = false

-- `_ensure_schedulable`, with `_availability_for_date`.
unfoldable pub ensure_schedulable :
    ℕ → ℕ → Option String → Option String → Option ℕ → Db → Checked Rule
unfolding capacity_used
ensure_schedulable chef_id service_date lower upper excluded db = do
  let rule = schedule_rule chef_id service_date db.catalog
  let used = capacity_used chef_id service_date excluded db.specials
  raise_if (not (rule.is_available && ltb 0 rule.capacity && ltb 0 (rule.capacity - used))) 409
      "chef_not_available_for_date"
  raise_if (starts_before lower rule.window_start) 422 "requested_window_outside_schedule"
  raise_if (starts_before rule.window_end upper) 422 "requested_window_outside_schedule"
  ok rule

-- `ceil(hours / 24)`
abbrev pub days_of : ℕ → ℕ
days_of hours = (hours + 23) / 24

-- `_validate_notice`, on the day of the request.
unfoldable pub validate_notice : Settings → ℕ → ℕ → ℕ → Checked (Unit {0})
validate_notice settings today service_date prep_notice_hours = do
  raise_if (ltb service_date today) 422 "special_order_date_in_past"
  raise_if (ltb service_date (today + days_of prep_notice_hours)) 422 "special_order_prep_notice"
  raise_if (ltb (today + settings.special_order_max_days_ahead) service_date) 422
      "special_order_date_too_far"
  ok tt

-- `_active_chef`
unfoldable pub active_chef : ℕ → Db → Checked ChefProfile
active_chef chef_id db = do
  chef ← or_raise 404 "chef_not_found" (get chef_id db.catalog.chefs)
  raise_if (not (str_eq chef.status "active") || not chef.is_verified) 404 "chef_not_found"
  ok chef
