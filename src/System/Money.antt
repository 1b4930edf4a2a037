-- ===== src/System/Money.antt =====
-- No payment is refunded beyond its amount.
use baytna.Prelude.{
  subst, ℕ, ◌≤◌, String, ◌≡◌, refl, sym, ◌∙◌, inl, inr, List, [], ◌∷◌, arith, is_some, Bool-cases,
  Option-cases,
}
use baytna.Prelude.Table.{put, find_last, AllRows, AllRows-put, AllRows-find_last}
use baytna.Entities.{InventoryReservation, Payment}
use baytna.Benefits.{release_for_unpaid_order, apply_for_paid_order}
use baytna.Inventory.{release_where, is_expired, as_expired}
use baytna.Orders.{
  expire_order, expire_orders, release_expired_holds, cancel_special, cancel_order,
  cancel_pending_order,
}
use baytna.Payments.Refunds.{
  RefundRequest, paid_for, succeeded_payment_for, refund_by_idempotency, RefundCall,
  refund_reference, refunded, create_refund,
}
use baytna.Session.{Db, Checked-cases, ok}

abbrev pub Within : Payment → Type 0
Within p = p.refunded_minor ≤ p.amount_minor

-- What has been refunded stays within what was paid.
pub record IsCovered (db : Db) : Type 0 where
  pub covered : AllRows Within db.payments

pub same-IsCovered : {db db' : Db} → db'.payments ≡ db.payments → IsCovered db → IsCovered db'
same-IsCovered same c = record { covered = subst (AllRows Within) (sym same) c.covered }

pub put-IsCovered :
    {db db' : Db} (k : ℕ) (p : Payment)
    → Within p
    → db'.payments ≡ put k p db.payments
    → IsCovered db
    → IsCovered db'
put-IsCovered {db} k p w same c = record {
  covered = subst (AllRows Within) (sym same) (AllRows-put Within k p db.payments w c.covered);
}

-- Where no payment is refunded beyond its amount, a refund that is created leaves it so, whatever the
-- provider answers.
pub create_refund-IsCovered :
    (call : RefundCall) (now admin order_id : ℕ) (req : RefundRequest) (db db' : Db)
    → create_refund call now admin order_id req db ≡ ok db'
    → IsCovered db
    → IsCovered db'
unfolding create_refund succeeded_payment_for
create_refund-IsCovered call now admin order_id req db db' h c =
    elim (Option-cases (find_last (paid_for order_id) db.payments)) [
      | inl unpaid ↦ absurd (ground arith)
      | inr (p, found) ↦
          elim (Checked-cases (call (refund_reference p) req.amount_minor req.idempotency_key)) [
            | inl (e, raised) ↦ same-IsCovered {db = db} (ground arith) c
            | inr (res, answered) ↦
                elim (Bool-cases (is_some (refund_by_idempotency p.id req.idempotency_key db))) [
                  | inl again ↦ same-IsCovered {db = db} (ground arith) c
                  | inr first ↦
                      put-IsCovered {db = db} p.id (refunded req res p)
                        (ground (
                          arith,
                          AllRows-find_last Within (paid_for order_id) db.payments p c.covered
                              found,
                        ))
                        (ground arith) c
                ]
          ]
    ]

pub release_for_unpaid_order-payments :
    (now order_id : ℕ) (reason : String) (db : Db)
    → (release_for_unpaid_order now order_id reason db).payments ≡ db.payments
unfolding release_for_unpaid_order
release_for_unpaid_order-payments now order_id reason db = ground arith

pub apply_for_paid_order-payments :
    (now order_id : ℕ) (db : Db) → (apply_for_paid_order now order_id db).payments ≡ db.payments
unfolding apply_for_paid_order
apply_for_paid_order-payments now order_id db = ground arith

expire_order-payments :
    (now order_id : ℕ) (db : Db) → (expire_order now order_id db).payments ≡ db.payments
unfolding expire_order
expire_order-payments now order_id db = grind (arith, release_for_unpaid_order-payments)

expire_orders-payments :
    (now : ℕ) (rs : List InventoryReservation) (db : Db)
    → (expire_orders now rs db).payments ≡ db.payments
unfolding expire_orders
expire_orders-payments now [] db = refl
expire_orders-payments now (r ∷ rs) db = ground (
  arith,
  expire_orders-payments now rs db,
  expire_orders-payments now rs (expire_order now r.order_id db),
  expire_order-payments now r.order_id db,
)

pub release_expired_holds-payments :
    (now : ℕ) (db : Db) → (release_expired_holds now db).payments ≡ db.payments
unfolding release_expired_holds
release_expired_holds-payments now db =
    expire_orders-payments now db.reservations (release_where (is_expired now) (as_expired now) db)

cancel_order-payments :
    (now customer order_id : ℕ) (db db' : Db)
    → cancel_order now customer order_id db ≡ ok db'
    → db'.payments ≡ db.payments
unfolding cancel_order cancel_special
cancel_order-payments now customer order_id db db' h =
    grind (arith, release_for_unpaid_order-payments)

pub cancel_pending_order-payments :
    (now customer order_id : ℕ) (db : Db)
    → (cancel_pending_order now customer order_id db).db.payments ≡ db.payments
unfolding cancel_pending_order
cancel_pending_order-payments now customer order_id db =
    elim (Checked-cases (cancel_order now customer order_id (release_expired_holds now db))) [
      | inl (e, refused) ↦ rw refused (release_expired_holds-payments now db)
      | inr (db', done) ↦ rw done (
          release_expired_holds-payments now db'
          ∙ cancel_order-payments now customer order_id (release_expired_holds now db) db' done
          ∙ release_expired_holds-payments now db)
    ]
