-- ===== src/Entities/Status.antt =====
-- The status columns of `backend/app/core/db_models.py`: one data type for each CHECK constraint.
use baytna.Prelude.{Bool, holds}

-- A type of statuses whose values can be compared.
pub record Status (A : Type 0) : Type 0 where
  pub decide : Discrete A

infix 50 ◌is◌
abbrev pub ◌is◌ : {A : Type 0} ⦃s : Status A⦄ → A → A → Bool
◌is◌ ⦃s⦄ a b = holds (s.decide a b)

-- `ck_orders_status`
pub data OrderStatus : Type 0 where
  pending_payment confirmed accepted_by_chef preparing ready_for_pickup : OrderStatus
  assigned_to_driver picked_up out_for_delivery delivered cancelled expired : OrderStatus

unfoldable pub OrderStatus-discrete : Discrete OrderStatus
OrderStatus-discrete = hlevel

instance abbrev pub order_status : Status OrderStatus
order_status = record { decide = OrderStatus-discrete }

-- `ck_orders_order_type`
pub data OrderType : Type 0 where
  standard special : OrderType

unfoldable pub OrderType-discrete : Discrete OrderType
OrderType-discrete = hlevel

instance abbrev pub order_type_status : Status OrderType
order_type_status = record { decide = OrderType-discrete }

-- `ck_daily_menu_status`
pub data ItemStatus : Type 0 where
  available sold_out hidden : ItemStatus

unfoldable pub ItemStatus-discrete : Discrete ItemStatus
ItemStatus-discrete = hlevel

instance abbrev pub item_status : Status ItemStatus
item_status = record { decide = ItemStatus-discrete }

-- `ck_inventory_reservations_status`
pub data HoldStatus : Type 0 where
  active released converted expired : HoldStatus

unfoldable pub HoldStatus-discrete : Discrete HoldStatus
HoldStatus-discrete = hlevel

instance abbrev pub hold_status : Status HoldStatus
hold_status = record { decide = HoldStatus-discrete }

-- `ck_chef_order_fulfillment_stage`
pub data Stage : Type 0 where
  new accepted preparing packaging ready rejected : Stage

unfoldable pub Stage-discrete : Discrete Stage
Stage-discrete = hlevel

instance abbrev pub stage_status : Status Stage
stage_status = record { decide = Stage-discrete }

-- `ck_delivery_tasks_status`
pub data TaskStatus : Type 0 where
  unassigned to_pickup at_pickup picked_up to_customer delivered delivery_issue cancelled :
      TaskStatus

unfoldable pub TaskStatus-discrete : Discrete TaskStatus
TaskStatus-discrete = hlevel

instance abbrev pub task_status : Status TaskStatus
task_status = record { decide = TaskStatus-discrete }

-- The values that the delivery service writes to `DriverProfileEntity.status`.
pub data DriverStatus : Type 0 where
  offline available on_mission : DriverStatus

unfoldable pub DriverStatus-discrete : Discrete DriverStatus
DriverStatus-discrete = hlevel

instance abbrev pub driver_status : Status DriverStatus
driver_status = record { decide = DriverStatus-discrete }

-- `ck_payments_status`
pub data PaymentStatus : Type 0 where
  pending succeeded failed cancelled expired : PaymentStatus

unfoldable pub PaymentStatus-discrete : Discrete PaymentStatus
PaymentStatus-discrete = hlevel

instance abbrev pub payment_status : Status PaymentStatus
payment_status = record { decide = PaymentStatus-discrete }

-- `ck_special_order_status`
pub data SpecialStatus : Type 0 where
  chef_review counter_offer awaiting_payment scheduled rejected cancelled expired : SpecialStatus

unfoldable pub SpecialStatus-discrete : Discrete SpecialStatus
SpecialStatus-discrete = hlevel

instance abbrev pub special_status : Status SpecialStatus
special_status = record { decide = SpecialStatus-discrete }

-- `ck_coupon_redemptions_status` and `ck_loyalty_redemptions_status`
pub data RedemptionStatus : Type 0 where
  reserved applied released : RedemptionStatus

unfoldable pub RedemptionStatus-discrete : Discrete RedemptionStatus
RedemptionStatus-discrete = hlevel

instance abbrev pub redemption_status : Status RedemptionStatus
redemption_status = record { decide = RedemptionStatus-discrete }

-- `ck_payment_webhook_processing_status`
pub data Processing : Type 0 where
  received processed ignored failed : Processing

-- `ck_delivery_tasks_timing_status`
pub data Timing : Type 0 where
  on_time late unmeasurable : Timing
