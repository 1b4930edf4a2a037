-- ===== src/Payments/Intents.antt =====
-- Creating a payment intent (`backend/app/modules/payments/service.py`).
use text.Mathlib.Text.{◌==◌ as str_eq}
use baytna.Prelude.{
  ℕ, ◌+◌, ◌*◌, String, Bool, false, not, ◌&&◌, ◌||◌, Option, none, some, List, [], ◌∷◌, leb, ◌==◌,
  if◌then◌else◌,
}
use baytna.Prelude.Table.{get, put, find, above}
use baytna.Entities.{Order, Payment}
use baytna.Entities.Status.{
  ◌is◌, OrderStatus, OrderType, PaymentStatus, SpecialStatus, order_status, task_status,
  driver_status, stage_status, item_status, hold_status, payment_status, order_type_status,
  special_status, redemption_status,
}
use baytna.Inventory.{lesser}
use baytna.Journal.{audit, special_for}
use baytna.Payments.{apply_payment_success}
use baytna.Session.{Db, Checked, ◌>>=◌, ◌>>◌, raise_if, or_raise, ok}
use baytna.Settings.{Settings, Texts, minute}

-- What the provider answers to an intent, whose payment, amount, currency and key it is given. It may raise.
pub record ProviderIntent : Type 0 where
  pub reference : String
  pub provider_order_reference : Option String
  pub provider_status : Option String
  pub checkout_url : Option String

abbrev pub IntentCall : Type 0
IntentCall = ℕ → ℕ → String → String → Checked ProviderIntent

-- How the payments are configured: the provider's name, the environment, and the parts of
-- `allowed_hosts` between its commas.
pub record PaymentSetup : Type 0 where
  pub provider : String
  pub env : String
  pub allowed_hosts : List String

-- A host that is neither empty nor this machine's own.
abbrev pub is_lan_host : String → Bool
is_lan_host host =
    not (str_eq host "")
    && not (str_eq host "localhost")
    && not (str_eq host "127.0.0.1")
    && not (str_eq host "testserver")
    && not (str_eq host "::1")

unfoldable pub has_lan_host : Texts → List String → Bool
has_lan_host texts [] = false
has_lan_host texts (h ∷ hs) = is_lan_host (texts.lower (texts.strip h)) || has_lan_host texts hs

-- Whether a mock payment is completed at once.
unfoldable pub completes_at_once : Texts → PaymentSetup → Bool
unfolding has_lan_host
completes_at_once texts setup =
    str_eq setup.provider "mock"
    && str_eq (texts.lower (texts.strip setup.env)) "development"
    && has_lan_host texts setup.allowed_hosts

-- Until when an order may be paid.
unfoldable pub payment_deadline : ℕ → ℕ → Order → Db → Checked ℕ
payment_deadline now order_id o db =
    if o.order_type is OrderType.special
    then (do
      sp ← or_raise 409 "special_order_not_awaiting_payment" (special_for order_id db.specials)
      raise_if (not (sp.status is SpecialStatus.awaiting_payment)) 409
          "special_order_not_awaiting_payment"
      t ← or_raise 409 "special_order_offer_expired" sp.offer_expires_at
      raise_if (leb t now) 409 "special_order_offer_expired"
      ok t)
    else (do
      t ← or_raise 409 "inventory_hold_missing" o.inventory_hold_expires_at
      raise_if (leb t now) 409 "inventory_hold_expired"
      ok t)

-- `payment_by_idempotency_key`
unfoldable pub payment_by_key : String → Db → Option Payment
payment_by_key key db = find (λ p. str_eq p.idempotency_key key) db.payments

abbrev pub new_payment_id : Db → ℕ
new_payment_id db = db.next_id + above db.payments

-- The payment of an intent that the provider has answered.
abbrev pub new_payment :
    Settings → PaymentSetup → ℕ → ℕ → ℕ → Order → String → ℕ → ProviderIntent → Payment
new_payment settings setup now id order_id o key deadline intent = record {
  id = id;
  order_id = order_id;
  customer_id = o.customer_id;
  provider = setup.provider;
  provider_reference = some intent.reference;
  provider_order_reference = intent.provider_order_reference;
  provider_transaction_reference = none;
  provider_status = intent.provider_status;
  provider_last_seen_at = some now;
  idempotency_key = key;
  amount_minor = o.total_minor;
  refunded_minor = 0;
  currency = o.currency;
  status = PaymentStatus.pending;
  checkout_url = intent.checkout_url;
  expires_at = lesser deadline (now + settings.payment_intent_ttl_minutes * minute);
  succeeded_at = none;
  failed_at = none;
}

-- A payment with a key that is new.
unfoldable pub open_intent :
    Texts → Settings → PaymentSetup → IntentCall → ℕ → ℕ → Order → String → ℕ → Db → Checked Db
unfolding completes_at_once
open_intent texts settings setup call now order_id o key deadline db = do
  let id = new_payment_id db
  intent ← call id o.total_minor o.currency key
  let p = new_payment settings setup now id order_id o key deadline intent
  let db1 : Db = record db { payments = put id p db.payments; next_id = id + 1 }
  let free : Payment = record p { checkout_url = none }
  db2 ←
      (if completes_at_once texts setup
        then apply_payment_success now free (record db1 { payments = put id free db.payments })
        else ok db1)
  ok (audit "payment.intent.created" (some o.customer_id) "payment" id db2)

-- `create_payment_intent`: a key that is known answers the payment that it made.
unfoldable pub create_payment_intent :
    Texts → Settings → PaymentSetup → IntentCall → ℕ → ℕ → ℕ → String → Db → Checked Db
unfolding open_intent payment_by_key
create_payment_intent texts settings setup call now customer_id order_id key db = do
  o ← or_raise 404 "order_not_found" (get order_id db.orders)
  raise_if (not (o.customer_id == customer_id)) 404 "order_not_found"
  raise_if (not (o.status is OrderStatus.pending_payment)) 409 "order_not_pending_payment"
  deadline ← payment_deadline now order_id o db
  (elim (payment_by_key key db) [
    | some p ↦ do
      raise_if (not (p.order_id == order_id) || not (p.customer_id == customer_id)) 409
          "payment_idempotency_conflict"
      ok db
    | none ↦ open_intent texts settings setup call now order_id o key deadline db
  ])
