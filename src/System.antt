-- ===== src/System.antt =====
-- The requests that the modelled services answer, in any order.
pub mod Frame
pub mod Money
pub mod Settlement
pub mod Returns
pub mod Health
use baytna.Prelude.{ℕ, String, Option, List, [], ◌∷◌}
use baytna.Delivery.Runs.{DeliveryCall, perform}
use baytna.Fulfillment.{AcceptRequest, detail, accept, sync_queue}
use baytna.Fulfillment.Rejection.{reject}
use baytna.Fulfillment.Stages.{start_preparing, start_packaging, ready_for_pickup}
use baytna.Orders.{release_expired_holds, cancel_pending_order}
use baytna.Orders.Cart.{get_cart, add_cart_item, update_cart_item, remove_cart_item, clear_cart}
use baytna.Orders.Checkout.{CreateOrderRequest, create_pending_order}
use baytna.Payments.Refunds.{RefundRequest, RefundCall, create_refund}
use baytna.Payments.Webhook.{WebhookRequest, process_webhook}
use baytna.Session.{Db, settle}
use baytna.Settings.{Settings, Platform}

-- What the process is configured with: its settings, its payment provider and the texts that Python
-- makes of identifiers.
pub record World : Type 0 where
  pub settings : Settings
  pub provider : String
  pub text_of : ℕ → String
  pub upper : String → String
  pub platform : Platform

-- A request that may refund carries what the provider answers to it, which may differ each time.
pub data Request : Type 0 where
  driving : DeliveryCall → Request
  opening : ℕ → ℕ → Request
  accepting : ℕ → ℕ → ℕ → AcceptRequest → Request
  cooking packing readying : ℕ → ℕ → ℕ → Option String → Request
  rejecting : RefundCall → ℕ → ℕ → ℕ → String → Request
  refunding : RefundCall → ℕ → ℕ → ℕ → RefundRequest → Request
  notifying : ℕ → String → String → WebhookRequest → Request
  cancelling : ℕ → ℕ → ℕ → Request
  expiring queueing : ℕ → Request
  viewing clearing : ℕ → ℕ → Request
  adding changing : ℕ → ℕ → ℕ → ℕ → Request
  removing : ℕ → ℕ → ℕ → Request
  ordering : ℕ → ℕ → CreateOrderRequest → Request

-- What a request leaves behind.
unfoldable pub answer : World → Request → Db → Db
answer w (driving c) db = settle db (perform w.settings c db)
answer w (opening chef order_id) db = settle db (detail w.settings chef order_id db)
answer w (accepting now chef order_id payload) db =
    settle db (accept w.settings now chef order_id payload db)
answer w (cooking now chef order_id chef_note) db =
    settle db (start_preparing now chef order_id chef_note db)
answer w (packing now chef order_id chef_note) db =
    settle db (start_packaging now chef order_id chef_note db)
answer w (readying now chef order_id chef_note) db =
    settle db (ready_for_pickup now chef order_id chef_note db)
answer w (rejecting refund_call now chef order_id reason) db =
    settle db (reject w.text_of refund_call w.settings now chef order_id reason db)
answer w (refunding refund_call now admin order_id req) db =
    settle db (create_refund refund_call now admin order_id req db)
answer w (notifying now provider payload_hash req) db =
    (process_webhook w.upper w.provider now provider payload_hash req db).db
answer w (cancelling now customer order_id) db = (cancel_pending_order now customer order_id db).db
answer w (expiring now) db = release_expired_holds now db
answer w (queueing chef) db = sync_queue w.settings chef db
answer w (viewing now customer) db = get_cart now customer db
answer w (clearing now customer) db = clear_cart now customer db
answer w (adding now customer item quantity) db = (add_cart_item now customer item quantity db).db
answer w (changing now customer line quantity) db =
    (update_cart_item now customer line quantity db).db
answer w (removing now customer line) db = settle db (remove_cart_item now customer line db)
answer w (ordering now customer payload) db =
    (create_pending_order w.platform w.settings now customer payload db).db

unfoldable pub answer_all : World → List Request → Db → Db
answer_all w [] db = db
answer_all w (r ∷ rs) db = answer_all w rs (answer w r db)
