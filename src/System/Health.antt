-- ===== src/System/Health.antt =====
-- What every request keeps, whoever sends it.
use baytna.Prelude.{ℕ, ◌≡◌, refl, List, [], ◌∷◌, arith}
use baytna.Delivery.Apart.{Apart, Apart-IsSound}
use baytna.Delivery.Runs.{perform, IsSound, perform-IsSound}
use baytna.Fulfillment.{detail, accept}
use baytna.Fulfillment.Chain.{accept-Apart, start_preparing-Apart, start_packaging-Apart}
use baytna.Fulfillment.Queue.{sync_queue-KeepsMissions}
use baytna.Fulfillment.Ready.{ready_for_pickup-IsSound}
use baytna.Fulfillment.Refusal.{create_refund-Apart, create_refund-KeepsStock, reject-IsRejection}
use baytna.Fulfillment.Rejection.{reject}
use baytna.Fulfillment.Stages.{start_preparing, start_packaging, ready_for_pickup}
use baytna.Inventory.Balance.{IsBalanced}
use baytna.Orders.Cart.{remove_cart_item}
use baytna.Orders.Cart.Upkeep.{
  get_cart-Upkeep, add_cart_item-Upkeep, update_cart_item-Upkeep, remove_cart_item-Upkeep,
  clear_cart-Upkeep,
}
use baytna.Orders.Holds.{
  keeps-IsBalanced, release_expired_holds_lem, cancel_pending_order-IsBalanced,
}
use baytna.Orders.Upkeep.{Upkeep, create_pending_order-Upkeep}
use baytna.Payments.Refunds.{create_refund}
use baytna.Payments.Road.{
  keeps-Apart, release_expired_holds-Apart, cancel_pending_order-Apart, process_webhook-Apart,
}
use baytna.Payments.Stock.{process_webhook-IsBalanced}
use baytna.Session.{Db, Checked, ok, err, settle}
use baytna.Settings.{Settings}
use baytna.System.{
  World, Request, answer, answer_all, driving, opening, accepting, cooking, packing, readying,
  rejecting, refunding, notifying, cancelling, expiring, queueing, viewing, clearing, adding,
  changing, removing, ordering,
}
use baytna.System.Frame.{
  KeepsLedger, perform-KeepsLedger, detail-KeepsLedger, accept-KeepsLedger,
  start_preparing-KeepsLedger, start_packaging-KeepsLedger, ready_for_pickup-KeepsLedger,
  sync_queue-KeepsLedger,
}
use baytna.System.Money.{
  IsCovered, same-IsCovered, create_refund-IsCovered, release_expired_holds-payments,
  cancel_pending_order-payments,
}
use baytna.System.Returns.{reject-IsCovered}
use baytna.System.Settlement.{process_webhook-IsCovered}

-- The missions are in step with the orders, the stock is balanced and the refunds are covered.
pub record IsHealthy (db : Db) : Type 0 where
  pub sound : IsSound db
  pub balanced : IsBalanced db
  pub covered : IsCovered db

-- A step that keeps the ledger and is sound.
ledger-IsHealthy : {db db' : Db} → KeepsLedger db db' → IsSound db' → IsHealthy db → IsHealthy db'
ledger-IsHealthy {db} {db'} k s g = record {
  sound = s;
  balanced = keeps-IsBalanced {db = db} (ground arith) g.balanced;
  covered = same-IsCovered k.payments g.covered;
}

Upkeep-IsHealthy : {db db' : Db} → Upkeep db db' → IsHealthy db → IsHealthy db'
Upkeep-IsHealthy u g = record {
  sound = Apart-IsSound u.apart g.sound;
  balanced = u.balanced g.balanced;
  covered = same-IsCovered u.payments g.covered;
}

-- A request that raises changes nothing.
settle-IsHealthy :
    (db : Db) (m : Checked Db)
    → ((db' : Db) → m ≡ ok db' → IsHealthy db')
    → IsHealthy db
    → IsHealthy (settle db m)
settle-IsHealthy db (ok db') step g = step db' refl
settle-IsHealthy db (err e) step g = g

detail-Apart :
    (settings : Settings) (chef order_id : ℕ) (db db' : Db)
    → detail settings chef order_id db ≡ ok db'
    → Apart db db'
unfolding detail
detail-Apart settings chef order_id db db' h = keeps-Apart (ground arith)

-- Any request, whether it succeeds or not, leaves a healthy database healthy.
pub answer-IsHealthy :
    (w : World) (r : Request) (db : Db) → IsHealthy db → IsHealthy (answer w r db)
unfolding answer
answer-IsHealthy w (driving c) db g =
    settle-IsHealthy db (perform w.settings c db)
      (λ db' h.
        ledger-IsHealthy (perform-KeepsLedger w.settings c db db' h)
          (perform-IsSound w.settings c db db' h g.sound) g)
      g
answer-IsHealthy w (opening chef i) db g =
    settle-IsHealthy db (detail w.settings chef i db)
      (λ db' h.
        ledger-IsHealthy (detail-KeepsLedger w.settings chef i db db' h)
          (Apart-IsSound (detail-Apart w.settings chef i db db' h) g.sound) g)
      g
answer-IsHealthy w (accepting now chef i q) db g =
    settle-IsHealthy db (accept w.settings now chef i q db)
      (λ db' h.
        ledger-IsHealthy (accept-KeepsLedger w.settings now chef i q db db' h)
          (Apart-IsSound (accept-Apart w.settings now chef i q db db' h) g.sound) g)
      g
answer-IsHealthy w (cooking now chef i q) db g =
    settle-IsHealthy db (start_preparing now chef i q db)
      (λ db' h.
        ledger-IsHealthy (start_preparing-KeepsLedger now chef i q db db' h)
          (Apart-IsSound (start_preparing-Apart now chef i q db db' h) g.sound) g)
      g
answer-IsHealthy w (packing now chef i q) db g =
    settle-IsHealthy db (start_packaging now chef i q db)
      (λ db' h.
        ledger-IsHealthy (start_packaging-KeepsLedger now chef i q db db' h)
          (Apart-IsSound (start_packaging-Apart now chef i q db db' h) g.sound) g)
      g
answer-IsHealthy w (readying now chef i q) db g =
    settle-IsHealthy db (ready_for_pickup now chef i q db)
      (λ db' h.
        ledger-IsHealthy (ready_for_pickup-KeepsLedger now chef i q db db' h)
          (ready_for_pickup-IsSound now chef i q db db' h g.sound) g)
      g
answer-IsHealthy w (rejecting refund_call now chef i reason) db g =
    settle-IsHealthy db (reject w.text_of refund_call w.settings now chef i reason db)
      (λ db' h.
        let done = reject-IsRejection w.text_of refund_call w.settings now chef i reason db db' h in
        record {
          sound = Apart-IsSound done.apart g.sound;
          balanced = done.balanced g.balanced;
          covered =
              reject-IsCovered w.text_of refund_call w.settings now chef i reason db db' h
                g.covered;
        })
      g
answer-IsHealthy w (refunding refund_call now admin i q) db g =
    settle-IsHealthy db (create_refund refund_call now admin i q db)
      (λ db' h. record {
        sound = Apart-IsSound (create_refund-Apart refund_call now admin i q db db' h) g.sound;
        balanced =
            keeps-IsBalanced (create_refund-KeepsStock refund_call now admin i q db db' h)
              g.balanced;
        covered = create_refund-IsCovered refund_call now admin i q db db' h g.covered;
      })
      g
answer-IsHealthy w (notifying now provider payload_hash q) db g = record {
  sound =
      Apart-IsSound (process_webhook-Apart w.upper w.provider now provider payload_hash q db)
        g.sound;
  balanced =
      process_webhook-IsBalanced w.upper w.provider now provider payload_hash q db g.balanced;
  covered = process_webhook-IsCovered w.upper w.provider now provider payload_hash q db g.covered;
}
answer-IsHealthy w (cancelling now customer i) db g = record {
  sound = Apart-IsSound (cancel_pending_order-Apart now customer i db) g.sound;
  balanced = cancel_pending_order-IsBalanced now customer i db g.balanced;
  covered = same-IsCovered (cancel_pending_order-payments now customer i db) g.covered;
}
answer-IsHealthy w (expiring now) db g = record {
  sound = Apart-IsSound (release_expired_holds-Apart now db) g.sound;
  balanced = (release_expired_holds_lem now db g.balanced).0;
  covered = same-IsCovered (release_expired_holds-payments now db) g.covered;
}
answer-IsHealthy w (queueing chef) db g =
    ledger-IsHealthy (sync_queue-KeepsLedger w.settings chef db)
      (Apart-IsSound (keeps-Apart (sync_queue-KeepsMissions w.settings chef db)) g.sound) g
answer-IsHealthy w (viewing now customer) db g =
    Upkeep-IsHealthy (get_cart-Upkeep now customer db) g
answer-IsHealthy w (clearing now customer) db g =
    Upkeep-IsHealthy (clear_cart-Upkeep now customer db) g
answer-IsHealthy w (adding now customer item quantity) db g =
    Upkeep-IsHealthy (add_cart_item-Upkeep now customer item quantity db) g
answer-IsHealthy w (changing now customer line quantity) db g =
    Upkeep-IsHealthy (update_cart_item-Upkeep now customer line quantity db) g
answer-IsHealthy w (removing now customer line) db g =
    settle-IsHealthy db (remove_cart_item now customer line db)
      (λ db' h. Upkeep-IsHealthy (remove_cart_item-Upkeep now customer line db db' h) g) g
answer-IsHealthy w (ordering now customer payload) db g =
    Upkeep-IsHealthy (create_pending_order-Upkeep w.platform w.settings now customer payload db) g

-- From a healthy database, whatever requests arrive, in whatever order, and however the payment
-- provider answers: every mission stays in step with its order, no order has two missions and no
-- driver two active ones; what is available of an item and what is held make up its total; and no
-- payment is refunded beyond its amount.
pub answer_all-IsHealthy :
    (w : World) (rs : List Request) (db : Db) → IsHealthy db → IsHealthy (answer_all w rs db)
unfolding answer_all
answer_all-IsHealthy w [] db g = g
answer_all-IsHealthy w (r ∷ rs) db g =
    answer_all-IsHealthy w rs (answer w r db) (answer-IsHealthy w r db g)
