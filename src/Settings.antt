-- ===== src/Settings.antt =====
-- The values of `backend/app/core/config.py` that the modelled services read.
use baytna.Prelude.{ℕ, Bool, String, Option}

pub record Settings : Type 0 where
  pub inventory_hold_ttl_minutes : ℕ
  pub payment_intent_ttl_minutes : ℕ
  pub chef_acceptance_sla_minutes : ℕ
  pub loyalty_minor_per_point : ℕ
  pub loyalty_redemption_minor_per_point : ℕ
  pub minimum_payable_minor : ℕ
  pub delivery_promise_required : Bool
  pub traffic_require_delivery_address_for_checkout : Bool
  pub traffic_default_hourly_order_cap : ℕ
  pub traffic_default_chef_daily_order_cap : ℕ
  pub special_order_payment_window_minutes : ℕ
  pub special_order_max_days_ahead : ℕ
  pub outbox_max_attempts : ℕ
  pub background_job_max_attempts : ℕ
  pub retry_base_seconds : ℕ
  pub worker_stale_seconds : ℕ

-- Python's methods of texts. SQL's `lower` stands for the same function as Python's.
pub record Texts : Type 0 where
  pub strip : String → String
  pub upper : String → String
  pub lower : String → String

-- What Python's libraries compute: texts; `int(sha256(f"{zone}:{customer}").hexdigest()[:12], 16)`;
-- `time.fromisoformat`, which may refuse; the instant of a local time of a day; and `date.today()`, the
-- day of an instant, by its ordinal number.
pub record Platform : Type 0 where
  pub texts : Texts
  pub digest : ℕ → ℕ → ℕ
  pub clock : String → Option ℕ
  pub instant_of : ℕ → ℕ → ℕ
  pub today : ℕ → ℕ

-- `timedelta(minutes=n)` and one second, in microseconds.
abbrev pub second : ℕ
second = 1000000

abbrev pub minute : ℕ
minute = 60000000
