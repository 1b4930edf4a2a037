-- ===== src/Entities.antt =====
-- The rows of `backend/app/core/db_models.py` that the modelled services read or write. Identifiers
-- (UUIDs, only compared and copied) are numbers, an instant is its number of microseconds, and
-- money is in minor units. Columns for display only are left out.
pub mod Status
pub mod Market
use Status.{
  OrderStatus, OrderType, ItemStatus, HoldStatus, Stage, TaskStatus, DriverStatus, PaymentStatus,
  SpecialStatus, RedemptionStatus, Processing, Timing,
}
use baytna.Prelude.{ℕ, Option, Bool, String}

-- A key that the source writes as a text followed by an identifier, as in f"order-ready:{id}", and in one
-- case by an instant.
pub record DedupeKey : Type 0 where
  pub prefix : String
  pub id : ℕ
  pub stamp : Option ℕ

pub record DailyMenuItem : Type 0 where
  pub workday_id : ℕ
  pub dish_id : ℕ
  pub price_minor : ℕ
  pub quantity_total : ℕ
  pub quantity_available : ℕ
  pub max_per_order : ℕ
  pub status : ItemStatus

pub record InventoryReservation : Type 0 where
  pub order_id : ℕ
  pub daily_menu_item_id : ℕ
  pub quantity : ℕ
  pub status : HoldStatus
  pub expires_at : ℕ
  pub released_at : Option ℕ
  pub converted_at : Option ℕ

pub record Order : Type 0 where
  pub customer_id : ℕ
  pub chef_id : ℕ
  pub source_cart_id : Option ℕ
  pub order_type : OrderType
  pub service_date : ℕ
  pub status : OrderStatus
  pub subtotal_minor : ℕ
  pub delivery_fee_minor : ℕ
  pub discount_minor : ℕ
  pub total_minor : ℕ
  pub currency : String
  pub inventory_hold_expires_at : Option ℕ
  pub promised_delivery_window_start_at : Option ℕ
  pub promised_delivery_window_end_at : Option ℕ
  pub created_at : ℕ
  pub updated_at : ℕ

pub record OrderStatusEvent : Type 0 where
  pub order_id : ℕ
  pub from_status : Option OrderStatus
  pub to_status : OrderStatus
  pub actor_user_id : Option ℕ
  pub reason : String
  pub created_at : ℕ

pub record ChefOrderFulfillment : Type 0 where
  pub chef_id : ℕ
  pub stage : Stage
  pub acceptance_deadline_at : Option ℕ
  pub estimated_ready_at : Option ℕ
  pub accepted_at : Option ℕ
  pub preparation_started_at : Option ℕ
  pub packaging_started_at : Option ℕ
  pub ready_at : Option ℕ
  pub rejected_at : Option ℕ
  pub rejection_reason : Option String
  pub chef_note : Option String

-- `delivery_proof_reference`: the driver's text, or the identifier of the photograph.
pub data ProofReference : Type 0 where
  written : String → ProofReference
  asset : ℕ → ProofReference

pub record DeliveryTask : Type 0 where
  pub order_id : ℕ
  pub chef_id : ℕ
  pub driver_id : Option ℕ
  pub status : TaskStatus
  pub accepted_at : Option ℕ
  pub arrived_pickup_at : Option ℕ
  pub picked_up_at : Option ℕ
  pub route_started_at : Option ℕ
  pub delivered_at : Option ℕ
  pub delivery_timing_status : Option Timing
  pub late_by_minutes : Option ℕ
  pub delivery_proof_type : Option String
  pub delivery_proof_reference : Option ProofReference
  pub delivery_proof_media_asset_id : Option ℕ
  pub issue_from_status : Option TaskStatus
  pub issue_code : Option String
  pub issue_note : Option String

pub record DriverProfile : Type 0 where
  pub status : DriverStatus

pub record MediaAsset : Type 0 where
  pub owner_user_id : ℕ
  pub status : String
  pub purpose : String

pub record Payment : Type 0 where
  pub id : ℕ
  pub order_id : ℕ
  pub customer_id : ℕ
  pub provider : String
  pub provider_reference : Option String
  pub provider_order_reference : Option String
  pub provider_transaction_reference : Option String
  pub provider_status : Option String
  pub provider_last_seen_at : Option ℕ
  pub idempotency_key : String
  pub amount_minor : ℕ
  pub refunded_minor : ℕ
  pub currency : String
  pub status : PaymentStatus
  pub checkout_url : Option String
  pub expires_at : ℕ
  pub succeeded_at : Option ℕ
  pub failed_at : Option ℕ

pub record PaymentWebhookEvent : Type 0 where
  pub provider : String
  pub provider_event_id : String
  pub event_type : String
  pub provider_reference : String
  pub payload_hash : String
  pub processing_status : Processing
  pub processed_at : Option ℕ

pub record Refund : Type 0 where
  pub order_id : ℕ
  pub payment_id : ℕ
  pub requested_by_user_id : ℕ
  pub amount_minor : ℕ
  pub reason : String
  pub idempotency_key : String
  pub status : PaymentStatus
  pub provider_reference : Option String
  pub provider_status : Option String
  pub provider_error : Option String
  pub completed_at : Option ℕ
  pub failed_at : Option ℕ

pub record SpecialOrderRequest : Type 0 where
  pub id : ℕ
  pub customer_id : ℕ
  pub chef_id : ℕ
  pub dish_id : ℕ
  pub order_id : Option ℕ
  pub status : SpecialStatus
  pub quantity : ℕ
  pub requested_service_date : ℕ
  pub requested_window_start : Option String
  pub requested_window_end : Option String
  pub requested_unit_price_minor : ℕ
  pub proposed_service_date : Option ℕ
  pub proposed_window_start : Option String
  pub proposed_window_end : Option String
  pub proposed_unit_price_minor : Option ℕ
  pub final_service_date : Option ℕ
  pub final_window_start : Option String
  pub final_window_end : Option String
  pub final_unit_price_minor : Option ℕ
  pub final_total_minor : Option ℕ
  pub chef_note : Option String
  pub rejection_reason : Option String
  pub offer_expires_at : Option ℕ
  pub chef_responded_at : Option ℕ
  pub customer_accepted_at : Option ℕ
  pub scheduled_at : Option ℕ
  pub cancelled_at : Option ℕ

pub record SpecialOrderEvent : Type 0 where
  pub special_order_id : ℕ
  pub from_status : Option SpecialStatus
  pub to_status : SpecialStatus
  pub actor_user_id : Option ℕ
  pub reason : String

pub record Coupon : Type 0 where
  pub id : ℕ
  pub code : String
  pub is_percent : Bool
  pub discount_value : ℕ
  pub min_subtotal_minor : ℕ
  pub max_discount_minor : Option ℕ
  pub total_usage_limit : Option ℕ
  pub per_customer_usage_limit : ℕ
  pub reserved_count : ℕ
  pub redeemed_count : ℕ
  pub stack_with_subscription : Bool
  pub starts_at : Option ℕ
  pub ends_at : Option ℕ
  pub is_active : Bool

pub record CouponRedemption : Type 0 where
  pub coupon_id : ℕ
  pub customer_id : ℕ
  pub discount_minor : ℕ
  pub status : RedemptionStatus
  pub applied_at : Option ℕ
  pub released_at : Option ℕ
  pub release_reason : Option String

pub record LoyaltyAccount : Type 0 where
  pub balance_points : ℕ
  pub lifetime_earned_points : ℕ
  pub lifetime_redeemed_points : ℕ

pub record LoyaltyRedemption : Type 0 where
  pub customer_id : ℕ
  pub points : ℕ
  pub discount_minor : ℕ
  pub status : RedemptionStatus
  pub applied_at : Option ℕ
  pub released_at : Option ℕ
  pub release_reason : Option String

-- `transaction_type`: points are positive for `earn`, and negative for `redeem`.
pub data LoyaltyEntry : Type 0 where
  earn redeem : ℕ → LoyaltyEntry

-- The idempotency key of a transaction is its kind followed by its order.
pub record LoyaltyTransaction : Type 0 where
  pub customer_id : ℕ
  pub entry : LoyaltyEntry
  pub idempotency_key : DedupeKey

-- A subscription's line among the price adjustments of an order, with its multiplier.
pub record PricingAdjustment : Type 0 where
  pub order_id : ℕ
  pub adjustment_type : String
  pub reference_code : Option String
  pub amount_minor : ℕ
  pub loyalty_multiplier_bps : Option ℕ

pub record AuditLog : Type 0 where
  pub action : String
  pub actor_user_id : Option ℕ
  pub entity_type : String
  pub entity_id : ℕ

pub record OutboxEvent : Type 0 where
  pub event_type : String
  pub aggregate_type : String
  pub aggregate_id : ℕ
  pub dedupe_key : DedupeKey

pub record Notification : Type 0 where
  pub user_id : ℕ
  pub kind : String
  pub dedupe_key : DedupeKey
