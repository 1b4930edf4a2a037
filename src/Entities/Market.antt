-- ===== src/Entities/Market.antt =====
-- The rows of `backend/app/core/db_models.py` that stand before an order: the kitchen's catalogue,
-- carts, subscriptions, schedules, and the zones that admit orders.
use baytna.Prelude.{ℕ, Option, Bool, String, List}
use baytna.Prelude.Table.{Table}
use baytna.Entities.Status.{Status}

pub record ChefProfile : Type 0 where
  pub user_id : ℕ
  pub status : String
  pub is_verified : Bool

pub record Dish : Type 0 where
  pub id : ℕ
  pub chef_id : ℕ
  pub name : String
  pub base_price_minor : ℕ
  pub prep_notice_hours : ℕ
  pub is_special_order_available : Bool
  pub is_active : Bool

pub record ChefWorkday : Type 0 where
  pub chef_id : ℕ
  pub service_date : ℕ
  pub status : String
  pub cutoff_at : Option ℕ
  pub delivery_window_start : Option String
  pub delivery_window_end : Option String

pub record Address : Type 0 where
  pub user_id : ℕ
  pub area : String
  pub is_default : Bool

-- `OrderDeliveryAddressEntity`, under its order.
pub record OrderDeliveryAddress : Type 0 where
  pub area : String

pub record SubscriptionPlan : Type 0 where
  pub code : String
  pub order_discount_bps : ℕ
  pub max_order_discount_minor : Option ℕ
  pub loyalty_multiplier_bps : ℕ
  pub is_active : Bool

pub record CustomerSubscription : Type 0 where
  pub customer_id : ℕ
  pub plan_id : ℕ
  pub status : String
  pub starts_at : ℕ
  pub ends_at : ℕ

pub record ChefWeeklySchedule : Type 0 where
  pub chef_id : ℕ
  pub weekday : ℕ
  pub is_available : Bool
  pub delivery_window_start : Option String
  pub delivery_window_end : Option String
  pub max_special_orders : ℕ

pub record ChefScheduleOverride : Type 0 where
  pub chef_id : ℕ
  pub service_date : ℕ
  pub is_available : Bool
  pub delivery_window_start : Option String
  pub delivery_window_end : Option String
  pub max_special_orders : Option ℕ

-- What the modelled operations only read.
pub record Catalog : Type 0 where
  pub chefs : Table ChefProfile
  pub dishes : Table Dish
  pub workdays : Table ChefWorkday
  pub addresses : Table Address
  pub plans : Table SubscriptionPlan
  pub subscriptions : List CustomerSubscription
  pub schedules : List ChefWeeklySchedule
  pub overrides : List ChefScheduleOverride

pub data CartStatus : Type 0 where
  active converted abandoned : CartStatus

unfoldable pub CartStatus-discrete : Discrete CartStatus
CartStatus-discrete = hlevel

instance abbrev pub cart_status : Status CartStatus
cart_status = record { decide = CartStatus-discrete }

pub record Cart : Type 0 where
  pub customer_id : ℕ
  pub chef_id : Option ℕ
  pub service_date : Option ℕ
  pub status : CartStatus
  pub updated_at : ℕ

pub record CartItem : Type 0 where
  pub id : ℕ
  pub cart_id : ℕ
  pub daily_menu_item_id : ℕ
  pub quantity : ℕ
  pub unit_price_minor : ℕ

pub record OrderItem : Type 0 where
  pub order_id : ℕ
  pub daily_menu_item_id : Option ℕ
  pub dish_id : ℕ
  pub dish_name : String
  pub unit_price_minor : ℕ
  pub quantity : ℕ
  pub line_total_minor : ℕ

-- `ck_expansion_zone_status`
pub data ZoneStatus : Type 0 where
  candidate ready approved live paused rejected : ZoneStatus

unfoldable pub ZoneStatus-discrete : Discrete ZoneStatus
ZoneStatus-discrete = hlevel

instance abbrev pub zone_status : Status ZoneStatus
zone_status = record { decide = ZoneStatus-discrete }

-- `ck_expansion_zone_rollout_stage`
pub data RolloutStage : Type 0 where
  not_started canary limited full paused : RolloutStage

unfoldable pub RolloutStage-discrete : Discrete RolloutStage
RolloutStage-discrete = hlevel

instance abbrev pub rollout_status : Status RolloutStage
rollout_status = record { decide = RolloutStage-discrete }

pub record ExpansionZone : Type 0 where
  pub id : ℕ
  pub area : String
  pub status : ZoneStatus
  pub rollout_stage : RolloutStage
  pub rollout_percent : ℕ
  pub daily_order_cap : Option ℕ

pub record ZoneTrafficPolicy : Type 0 where
  pub is_enabled : Bool
  pub hourly_order_cap : Option ℕ
  pub chef_daily_order_cap : Option ℕ
  pub enforce_rollout_bucket : Bool

-- The `reason` of an admission decision.
pub data AdmissionReason : Type 0 where
  admitted traffic_policy_disabled zone_paused rollout_not_live : AdmissionReason
  outside_rollout_bucket zone_daily_cap_reached : AdmissionReason
  zone_hourly_cap_reached chef_daily_cap_reached : AdmissionReason

unfoldable pub AdmissionReason-discrete : Discrete AdmissionReason
AdmissionReason-discrete = hlevel

instance abbrev pub admission_reason : Status AdmissionReason
admission_reason = record { decide = AdmissionReason-discrete }

-- `decision` is "admitted" or "rejected".
pub record ZoneAdmissionEvent : Type 0 where
  pub id : ℕ
  pub zone_id : ℕ
  pub order_id : Option ℕ
  pub customer_id : ℕ
  pub chef_id : ℕ
  pub service_date : ℕ
  pub area : String
  pub decision : String
  pub reason : AdmissionReason
  pub rollout_stage : RolloutStage
  pub rollout_percent : ℕ
  pub rollout_bucket : ℕ
  pub daily_cap : Option ℕ
  pub daily_usage_before : ℕ
  pub hourly_cap : Option ℕ
  pub hourly_usage_before : ℕ
  pub chef_daily_cap : Option ℕ
  pub chef_usage_before : ℕ
