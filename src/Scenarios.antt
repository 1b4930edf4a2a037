-- ===== src/Scenarios.antt =====
-- A small shop: the rows that the examples run on.
mod Examples
mod Kitchen
mod Healthy
mod Market
mod Padded
mod Works
mod Parties
mod Intents
use text.Mathlib.Text.{◌==◌ as str_eq}
use baytna.Prelude.{ℕ, String, true, false, none, some, [], ◌∷◌, ◌+◌, ◌*◌, if◌then◌else◌}
use baytna.Prelude.Table.{empty, row}
use baytna.Entities.{DailyMenuItem, InventoryReservation, Order, Payment}
use baytna.Entities.Market.{
  Catalog, CartStatus, Cart, CartItem, ZoneStatus, RolloutStage, ExpansionZone, ZoneTrafficPolicy,
}
use baytna.Entities.Status.{
  OrderStatus, OrderType, ItemStatus, HoldStatus, DriverStatus, PaymentStatus,
}
use baytna.Delivery.Dispatch.{new_task}
use baytna.Delivery.Repository.{is_active}
use baytna.Fulfillment.Stages.{ready_for_pickup}
use baytna.Journal.{audit}
use baytna.Payments.Refunds.{RefundRequest, RefundCall}
use baytna.Payments.Webhook.{WebhookRequest}
use baytna.Session.{Db, ok}
use baytna.Settings.{Settings, Platform}
use baytna.Specials.Schedule.{weekday}
use baytna.System.{World}

abbrev pub an_order : ℕ → OrderStatus → Order
an_order customer status = record {
  customer_id = customer;
  chef_id = 20;
  source_cart_id = none;
  order_type = OrderType.standard;
  service_date = 1;
  status = status;
  subtotal_minor = 900;
  delivery_fee_minor = 100;
  discount_minor = 0;
  total_minor = 1000;
  currency = "EGP";
  inventory_hold_expires_at = none;
  promised_delivery_window_start_at = some 400;
  promised_delivery_window_end_at = some 500;
  created_at = 40;
  updated_at = 40;
}

abbrev pub a_hold : ℕ → ℕ → HoldStatus → ℕ → InventoryReservation
a_hold order_id quantity status expires_at = record {
  order_id = order_id;
  daily_menu_item_id = 5;
  quantity = quantity;
  status = status;
  expires_at = expires_at;
  released_at = none;
  converted_at = none;
}

abbrev pub a_payment : ℕ → ℕ → PaymentStatus → String → Payment
a_payment id order_id status reference = record {
  id = id;
  order_id = order_id;
  customer_id = 10;
  provider = "mock";
  provider_reference = some reference;
  provider_order_reference = none;
  provider_transaction_reference = none;
  provider_status = none;
  provider_last_seen_at = none;
  idempotency_key = "intent-key";
  amount_minor = 1000;
  refunded_minor = 0;
  currency = "EGP";
  status = status;
  checkout_url = none;
  expires_at = 900;
  succeeded_at = none;
  failed_at = none;
}

abbrev pub koshari : DailyMenuItem
koshari = record {
  workday_id = 1;
  dish_id = 2;
  price_minor = 300;
  quantity_total = 10;
  quantity_available = 4;
  max_per_order = 5;
  status = ItemStatus.available;
}

abbrev pub shop_catalog : Catalog
shop_catalog = record {
  chefs = row 20 (record { user_id = 20; status = "active"; is_verified = true }) empty;
  dishes =
      row 2
        (record {
          id = 2;
          chef_id = 20;
          name = "koshari";
          base_price_minor = 300;
          prep_notice_hours = 24;
          is_special_order_available = true;
          is_active = true;
        })
        empty;
  workdays =
      row 1
        (record {
          chef_id = 20;
          service_date = 1;
          status = "open";
          cutoff_at = some 300;
          delivery_window_start = none;
          delivery_window_end = none;
        })
        empty;
  addresses = row 70 (record { user_id = 10; area = "october"; is_default = true }) empty;
  plans = empty;
  subscriptions = [];
  schedules =
      record {
        chef_id = 20;
        weekday = 3;
        is_available = true;
        delivery_window_start = none;
        delivery_window_end = none;
        max_special_orders = 2;
      }
      ∷ [];
  overrides = [];
}

-- A cart with two portions of the item.
abbrev pub shop_cart : Cart
shop_cart = record {
  customer_id = 10;
  chef_id = some 20;
  service_date = some 1;
  status = CartStatus.active;
  updated_at = 40;
}

abbrev pub shop_line : CartItem
shop_line = record {
  id = 81;
  cart_id = 80;
  daily_menu_item_id = 5;
  quantity = 2;
  unit_price_minor = 300;
}

abbrev pub shop_zone : ExpansionZone
shop_zone = record {
  id = 90;
  area = "october";
  status = ZoneStatus.live;
  rollout_stage = RolloutStage.full;
  rollout_percent = 100;
  daily_order_cap = some 2;
}

abbrev pub shop_policy : ZoneTrafficPolicy
shop_policy = record {
  is_enabled = true;
  hourly_order_cap = some 8;
  chef_daily_order_cap = some 12;
  enforce_rollout_bucket = true;
}

-- Order 1 is confirmed and paid, orders 2 and 4 wait for their payment, order 3 is ready, and its
-- mission 7 waits for a driver. The hold of order 4 runs out at 60.
abbrev pub shop : Db
shop = record {
  next_id = 100;
  items = row 5 koshari empty;
  reservations =
      a_hold 1 3 HoldStatus.converted 50
      ∷ a_hold 2 1 HoldStatus.active 800
      ∷ a_hold 4 2 HoldStatus.active 60
      ∷ [];
  orders = row 1 (an_order 10 OrderStatus.confirmed) (
      row 2 (an_order 10 OrderStatus.pending_payment) (
        row 3 (an_order 11 OrderStatus.ready_for_pickup)
          (row 4 (an_order 12 OrderStatus.pending_payment) empty)));
  order_events = [];
  fulfillments = empty;
  tasks = row 7 (new_task 3 (an_order 11 OrderStatus.ready_for_pickup)) empty;
  drivers = row 30 (record { status = DriverStatus.available }) empty;
  catalog = shop_catalog;
  carts = row 80 shop_cart empty;
  cart_items = row 81 shop_line empty;
  order_items = [];
  order_addresses = row 3 (record { area = "october" }) empty;
  zones = row 90 shop_zone empty;
  policies = row 90 shop_policy empty;
  admissions = [];
  media = empty;
  payments =
      row 50 (a_payment 50 1 PaymentStatus.succeeded "ref-1")
        (row 51 (a_payment 51 2 PaymentStatus.pending "ref-2") empty);
  webhook_events = [];
  refunds = empty;
  specials = empty;
  special_events = [];
  coupons = empty;
  coupon_redemptions = empty;
  loyalty_accounts = empty;
  loyalty_redemptions = empty;
  loyalty_transactions = [];
  adjustments = [];
  audit = [];
  outbox = [];
  notifications = [];
}

abbrev pub configured : Settings
configured = record {
  inventory_hold_ttl_minutes = 15;
  payment_intent_ttl_minutes = 15;
  chef_acceptance_sla_minutes = 10;
  loyalty_minor_per_point = 100;
  loyalty_redemption_minor_per_point = 10;
  minimum_payable_minor = 100;
  delivery_promise_required = false;
  traffic_require_delivery_address_for_checkout = false;
  traffic_default_hourly_order_cap = 8;
  traffic_default_chef_daily_order_cap = 12;
  special_order_payment_window_minutes = 1440;
  special_order_max_days_ahead = 60;
  outbox_max_attempts = 8;
  background_job_max_attempts = 5;
  retry_base_seconds = 5;
  worker_stale_seconds = 120;
}

-- A provider that refunds whatever it is asked, as `MockPaymentProvider` does, and one whose refunds
-- are disabled.
abbrev pub generous : RefundCall
generous reference amount key = ok (record {
  succeeded = true;
  reference = "mock_rf";
  provider_status = some "succeeded";
  error = none;
})

abbrev pub disabled : RefundCall
disabled reference amount key = ok (record {
  succeeded = false;
  reference = "";
  provider_status = some "disabled";
  error = some "refunds are disabled";
})

-- The texts and the clock of the scenarios: areas are written in lower case, and every window starts or
-- ends at noon.
-- A platform that knows how to strip one text.
abbrev pub small_platform : Platform
small_platform = record {
  texts = record {
    strip = λ s. if str_eq s " october" then "october" else s;
    upper = λ s. s;
    lower = λ s. s;
  };
  digest = λ z c. z + c;
  clock = λ s. some 12;
  instant_of = λ day time. day * 100 + time;
  today = λ now. 1;
}

abbrev pub baytna_world : World
baytna_world = record {
  settings = configured;
  provider = "mock";
  text_of = λ i. "00000000-0000-0000-0000-000000000000";
  upper = λ s. s;
  platform = small_platform;
}

abbrev pub paid_notice : WebhookRequest
paid_notice = record {
  event_id = "event-1";
  event_type = "payment.succeeded";
  payment_reference = "ref-2";
  amount_minor = some 1000;
  currency = some "EGP";
}

abbrev pub partly : RefundRequest
partly = record { amount_minor = 400; reason = "cold meal"; idempotency_key = "refund-1" }
