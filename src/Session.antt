-- ===== src/Session.antt =====
-- The database of `backend/app/core/db_models.py`, and computations that raise an `ApiError`. A
-- request that raises is rolled back (`get_db` of `backend/app/core/database.py`), so a handler is a
-- function from the database to the one that it commits, or to its error.
use baytna.Prelude.{
  ℕ, Option, none, some, Bool, true, false, List, String, ◌≡◌, refl, ◌⊎◌, inl, inr, ◌+◌,
}
use baytna.Prelude.Table.{Table, above}
use baytna.Entities.{
  DailyMenuItem, InventoryReservation, Order, OrderStatusEvent, ChefOrderFulfillment, DeliveryTask,
  DriverProfile, MediaAsset, Payment, PaymentWebhookEvent, Refund, SpecialOrderRequest,
  SpecialOrderEvent, Coupon, CouponRedemption, LoyaltyAccount, LoyaltyRedemption,
  LoyaltyTransaction, PricingAdjustment, AuditLog, OutboxEvent, Notification,
}
use baytna.Entities.Market.{
  OrderDeliveryAddress, Catalog, Cart, CartItem, OrderItem, ExpansionZone, ZoneTrafficPolicy,
  ZoneAdmissionEvent,
}

-- The tables. Fulfillments, delivery addresses and redemptions are under the order that they belong
-- to, and traffic policies under their zone (unique columns); the logs are newest first.
pub record Db : Type 0 where
  pub next_id : ℕ
  pub items : Table DailyMenuItem
  pub reservations : List InventoryReservation
  pub orders : Table Order
  pub order_events : List OrderStatusEvent
  pub fulfillments : Table ChefOrderFulfillment
  pub tasks : Table DeliveryTask
  pub drivers : Table DriverProfile
  pub catalog : Catalog
  pub carts : Table Cart
  pub cart_items : Table CartItem
  pub order_items : List OrderItem
  pub order_addresses : Table OrderDeliveryAddress
  pub zones : Table ExpansionZone
  pub policies : Table ZoneTrafficPolicy
  pub admissions : List ZoneAdmissionEvent
  pub media : Table MediaAsset
  pub payments : Table Payment
  pub webhook_events : List PaymentWebhookEvent
  pub refunds : Table Refund
  pub specials : Table SpecialOrderRequest
  pub special_events : List SpecialOrderEvent
  pub coupons : Table Coupon
  pub coupon_redemptions : Table CouponRedemption
  pub loyalty_accounts : Table LoyaltyAccount
  pub loyalty_redemptions : Table LoyaltyRedemption
  pub loyalty_transactions : List LoyaltyTransaction
  pub adjustments : List PricingAdjustment
  pub audit : List AuditLog
  pub outbox : List OutboxEvent
  pub notifications : List Notification

-- `uuid4()`: an identifier that no row has that the modelled requests look up by one.
unfoldable pub new_id : Db → ℕ
new_id db =
    db.next_id
    + above db.orders
    + above db.carts
    + above db.cart_items
    + above db.order_addresses
    + above db.coupon_redemptions
    + above db.loyalty_redemptions

-- `ApiError`: the HTTP status and the machine-readable code.
pub record ApiError : Type 0 where
  pub status_code : ℕ
  pub code : String

-- A computation that may raise.
pub data Checked {ℓ} (A : Type ℓ) : Type ℓ where
  ok : A → Checked A
  err : ApiError → Checked A

infixl 5 ◌>>=◌ ◌>>◌
abbrev pub ◌>>=◌ {ℓ κ} : {A : Type ℓ} {B : Type κ} → Checked A → (A → Checked B) → Checked B
ok a >>= f = f a
err e >>= f = err e

abbrev pub ◌>>◌ {ℓ} : {B : Type ℓ} → Checked (Unit {0}) → Checked B → Checked B
m >> k = m >>= λ _. k

abbrev pub raise {ℓ} : {A : Type ℓ} → ℕ → String → Checked A
raise status code = err (record { status_code = status; code = code })

abbrev pub raise_if : Bool → ℕ → String → Checked (Unit {0})
raise_if true status code = raise status code
raise_if false status code = ok tt

-- `x = query; if x is None: raise ApiError(status, code)`
abbrev pub or_raise {ℓ} : {A : Type ℓ} → ℕ → String → Option A → Checked A
or_raise status code none = raise status code
or_raise status code (some a) = ok a

-- A row that a foreign key names. Reading an attribute of None ends the request with status 500.
abbrev pub or_crash {ℓ} : {A : Type ℓ} → Option A → Checked A
or_crash = or_raise 500 "attribute_error"

-- To split on a computed result and keep the equation.
pub Checked-cases {ℓ} :
    {A : Type ℓ} (m : Checked A) → ((e : ApiError) × (m ≡ err e)) ⊎ ((a : A) × (m ≡ ok a))
Checked-cases (ok a) = inr (a, refl)
Checked-cases (err e) = inl (e, refl)

-- How a request ends that may have committed before it raised.
pub record Ended : Type 0 where
  pub db : Db
  pub error : Option ApiError

-- The rest of a request, after a commit that stays.
abbrev pub ended : Db → Checked Db → Ended
ended committed (ok db) = record { db = db; error = none }
ended committed (err e) = record { db = committed; error = some e }

-- A request that raises is rolled back.
abbrev pub settle : Db → Checked Db → Db
settle db (ok db') = db'
settle db (err e) = db
