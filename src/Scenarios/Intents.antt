-- ===== src/Scenarios/Intents.antt =====
-- A payment intent at the shop.
use baytna.Prelude.{ℕ, ◌<◌, ◌≡◌, refl, false, none, some, [], ◌∷◌, arith}
use baytna.Prelude.Table.{get, put, find, above, empty, row}
use baytna.Entities.{Order}
use baytna.Entities.Status.{OrderStatus, OrderStatus-discrete, OrderType-discrete}
use baytna.Payments.Intents.{
  IntentCall, PaymentSetup, has_lan_host, completes_at_once, payment_deadline, payment_by_key,
  open_intent, create_payment_intent,
}
use baytna.Payments.Payable.{create_payment_intent_once, IsServed, create_payment_intent-IsServed}
use baytna.Scenarios.{an_order, shop, configured, small_platform}
use baytna.Session.{Db, settle, ok}

abbrev held_order : Order
held_order = record (an_order 10 OrderStatus.pending_payment) {
  inventory_hold_expires_at = some 800;
}

abbrev held_shop : Db
held_shop = record shop { orders = row 2 held_order empty }

abbrev mock_setup : PaymentSetup
mock_setup = record { provider = "mock"; env = "test"; allowed_hosts = "localhost" ∷ [] }

abbrev mock_intent : IntentCall
mock_intent id amount currency key = ok (record {
  reference = "mock_pi";
  provider_order_reference = none;
  provider_status = some "pending";
  checkout_url = some "https://mock-payments.local";
})

abbrev intended : Db
intended = settle held_shop (
    create_payment_intent small_platform.texts configured mock_setup mock_intent 55 10 2 "key-9"
      held_shop)

intends :
    create_payment_intent small_platform.texts configured mock_setup mock_intent 55 10 2 "key-9"
      held_shop
    ≡ ok intended
unfolding create_payment_intent open_intent payment_by_key payment_deadline completes_at_once
    has_lan_host find get put above OrderType-discrete OrderStatus-discrete
intends = refl

not_local : completes_at_once small_platform.texts mock_setup ≡ false
unfolding completes_at_once has_lan_host
not_local = refl

held_there : get 2 held_shop.orders ≡ some held_order
unfolding get
held_there = refl

due : (now : ℕ) → now < 800 → payment_deadline now 2 held_order held_shop ≡ ok 800
unfolding payment_deadline OrderType-discrete
due now early = ground arith

new_key : payment_by_key "key-9" held_shop ≡ none
unfolding payment_by_key find
new_key = refl

create_payment_intent-IsServed_example : IsServed mock_intent 55 10 2 "key-9" held_shop intended
create_payment_intent-IsServed_example =
    create_payment_intent-IsServed small_platform.texts configured mock_setup mock_intent not_local
      55 10 2 "key-9" held_shop intended (omega arith) intends

create_payment_intent_once_example :
    create_payment_intent small_platform.texts configured mock_setup mock_intent 70 10 2 "key-9"
      intended
    ≡ ok intended
create_payment_intent_once_example =
    create_payment_intent_once small_platform.texts configured mock_setup mock_intent not_local 55
      70 10 2 "key-9" held_shop intended held_order 800 intends held_there (due 70 (omega arith))
      new_key mock_intent
