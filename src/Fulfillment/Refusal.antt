-- ===== src/Fulfillment/Refusal.antt =====
-- What a chef's rejection does to the stock, the missions and the customer's money.
use baytna.Prelude.{ℕ, ◌≡◌, arith, subst, String, inl, inr, some, Bool-cases, Option-cases}
use baytna.Prelude.Table.{get}
use baytna.Entities.{Order, ChefOrderFulfillment, Payment}
use baytna.Entities.Status.{
  ◌is◌, OrderStatus, order_status, task_status, driver_status, stage_status, item_status,
  hold_status, payment_status, order_type_status, special_status, redemption_status,
}
use baytna.Delivery.Apart.{Apart, Apart-refl, Apart-trans}
use baytna.Fulfillment.{order_for_chef, ensure_for_confirmed_order}
use baytna.Fulfillment.Chain.{order-Apart}
use baytna.Fulfillment.Rejection.{refund_remaining, cancel_rejected, reject}
use baytna.Inventory.{release_where, is_converted_for, as_released}
use baytna.Inventory.Balance.{IsBalanced, release-IsBalanced}
use baytna.Orders.Holds.{KeepsStock, keeps-IsBalanced}
use baytna.Payments.Refunds.{RefundRequest, RefundCall, create_refund, succeeded_payment_for}
use baytna.Session.{Db, ok, Checked-cases}
use baytna.Settings.{Settings}

pub create_refund-Apart :
    (call : RefundCall) (now admin order_id : ℕ) (req : RefundRequest) (db db' : Db)
    → create_refund call now admin order_id req db ≡ ok db'
    → Apart db db'
unfolding create_refund
create_refund-Apart call now admin order_id req db db' h = record {
  tasks = ground arith;
  ids = ground arith;
  orders = λ k o e r. ground arith;
}

pub create_refund-KeepsStock :
    (call : RefundCall) (now admin order_id : ℕ) (req : RefundRequest) (db db' : Db)
    → create_refund call now admin order_id req db ≡ ok db'
    → KeepsStock db db'
unfolding create_refund
create_refund-KeepsStock call now admin order_id req db db' h = ground arith

-- A refund writes to no order and no item, and not to the holds.
pub record IsMoneyOnly (db db' : Db) : Type 0 where
  pub apart : Apart db db'
  pub stock : KeepsStock db db'
  pub orders : db'.orders ≡ db.orders

refund_remaining-IsMoneyOnly :
    (text_of : ℕ → String) (call : RefundCall) (now chef_id order_id : ℕ) (reason : String)
    (p : Payment) (db db' : Db)
    → refund_remaining text_of call now chef_id order_id reason p db ≡ ok db'
    → IsMoneyOnly db db'
unfolding refund_remaining create_refund
refund_remaining-IsMoneyOnly text_of call now chef_id order_id reason p db db' h = record {
  apart = record { tasks = ground arith; ids = ground arith; orders = λ k o e r. ground arith };
  stock = ground arith;
  orders = ground arith;
}

cancel_rejected-IsBalanced :
    (now chef_id order_id : ℕ) (reason : String) (o : Order) (f : ChefOrderFulfillment)
    (db db' : Db)
    → cancel_rejected now chef_id order_id reason o f db ≡ ok db'
    → IsBalanced db
    → IsBalanced db'
unfolding cancel_rejected
cancel_rejected-IsBalanced now chef_id order_id reason o f db db' h b =
    keeps-IsBalanced {db = release_where (is_converted_for order_id) (as_released now) db}
      (ground arith) (release-IsBalanced order_id now db b).2

cancel_rejected-Apart :
    (now chef_id order_id : ℕ) (reason : String) (o : Order) (f : ChefOrderFulfillment)
    (db db' : Db)
    → get order_id db.orders ≡ some o
    → cancel_rejected now chef_id order_id reason o f db ≡ ok db'
    → Apart db db'
unfolding cancel_rejected
cancel_rejected-Apart now chef_id order_id reason o f db db' found h =
    order-Apart order_id o (record o { status = OrderStatus.cancelled; updated_at = now }) found
      (ground arith) (ground arith) (ground arith) (ground arith)

-- What a rejection may do to the database.
pub record IsRejection (db db' : Db) : Type 0 where
  pub apart : Apart db db'
  pub balanced : IsBalanced db → IsBalanced db'

unchanged : {db db' : Db} → db ≡ db' → IsRejection db db'
unchanged {db} e = subst (IsRejection db) e (record { apart = Apart-refl db; balanced = λ b. b })

pub reject-IsRejection :
    (text_of : ℕ → String) (call : RefundCall) (settings : Settings) (now chef_id order_id : ℕ)
    (reason : String) (db db' : Db)
    → reject text_of call settings now chef_id order_id reason db ≡ ok db'
    → IsRejection db db'
unfolding reject order_for_chef
reject-IsRejection text_of call settings now chef_id order_id reason db db' h =
    elim (Option-cases (get order_id db.orders)) [
      | inl missing ↦ absurd (ground arith)
      | inr (o, found) ↦ elim (Checked-cases (ensure_for_confirmed_order settings order_id o db)) [
        | inl (e, refused) ↦ absurd (ground arith)
        | inr (f, ensured) ↦ elim (Option-cases (succeeded_payment_for order_id db)) [
          | inl unpaid ↦ unchanged (ground arith)
          | inr (p, paid) ↦
              elim (Checked-cases
                (refund_remaining text_of call now chef_id order_id reason p db)) [
                  | inl (e, unrefunded) ↦ unchanged (ground arith)
                  | inr (mid, refunded_now) ↦
                      elim (Bool-cases (o.status is OrderStatus.confirmed)) [
                        | inl confirmed' ↦
                            let money =
                              refund_remaining-IsMoneyOnly text_of call now chef_id order_id reason
                                p db mid refunded_now in
                            record {
                              apart = Apart-trans money.apart (
                                  cancel_rejected-Apart now chef_id order_id reason o f mid db'
                                    (ground arith) (ground arith));
                              balanced = λ b.
                                  cancel_rejected-IsBalanced now chef_id order_id reason o f mid db'
                                    (ground arith) (keeps-IsBalanced money.stock b);
                            }
                        | inr other ↦ unchanged (ground arith)
                      ]
                ]
        ]
      ]
    ]
