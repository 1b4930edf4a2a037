-- ===== src/Orders/Holds.antt =====
-- What the expiry of holds and a cancellation do to the stock.
use baytna.Prelude.{
  ℕ, String, ◌≡◌, refl, inl, inr, Bool, false, ◌||◌, List, [], ◌∷◌, arith, Bool-cases,
}
use baytna.Prelude.Table.{Table}
use baytna.Entities.{DailyMenuItem, InventoryReservation}
use baytna.Entities.Status.{HoldStatus-discrete}
use baytna.Benefits.{release_for_unpaid_order, apply_for_paid_order}
use baytna.Inventory.{
  release_inventory, release_all, release_where, is_expired, is_active_for, as_expired, as_released,
}
use baytna.Inventory.Balance.{IsBalanced, release-IsBalanced}
use baytna.Orders.{
  expire_order, expire_orders, release_expired_holds, cancel_special, cancel_order,
  cancel_pending_order,
}
use baytna.Session.{Db, Checked-cases, ok}

-- An operation that writes to no item and no reservation.
pub record KeepsStock (db db' : Db) : Type 0 where
  pub items : db'.items ≡ db.items
  pub reservations : db'.reservations ≡ db.reservations

pub keeps-IsBalanced : {db db' : Db} → KeepsStock db db' → IsBalanced db → IsBalanced db'
keeps-IsBalanced s b = record {
  balance = λ k i h. rw s.reservations (b.balance k i (rw (← s.items) h));
}

pub release_for_unpaid_order-KeepsStock :
    (now order_id : ℕ) (reason : String) (db : Db)
    → KeepsStock db (release_for_unpaid_order now order_id reason db)
unfolding release_for_unpaid_order
release_for_unpaid_order-KeepsStock now order_id reason db = ground arith

pub apply_for_paid_order-KeepsStock :
    (now order_id : ℕ) (db : Db) → KeepsStock db (apply_for_paid_order now order_id db)
unfolding apply_for_paid_order
apply_for_paid_order-KeepsStock now order_id db = ground arith

expire_order-KeepsStock :
    (now order_id : ℕ) (db : Db) → KeepsStock db (expire_order now order_id db)
unfolding expire_order
expire_order-KeepsStock now order_id db = grind (arith, release_for_unpaid_order-KeepsStock)

expire_orders-KeepsStock :
    (now : ℕ) (rs : List InventoryReservation) (db : Db) → KeepsStock db (expire_orders now rs db)
unfolding expire_orders
expire_orders-KeepsStock now [] db = ground arith
expire_orders-KeepsStock now (r ∷ rs) db = elim (Bool-cases (is_expired now r)) [
  | inl overdue ↦ rw overdue (
      ground (
        arith,
        expire_order-KeepsStock now r.order_id db,
        expire_orders-KeepsStock now rs (expire_order now r.order_id db),
      ))
  | inr in_time ↦ rw in_time (expire_orders-KeepsStock now rs db)
]

-- Whether any reservation is active past its time.
abbrev pub any_expired : ℕ → List InventoryReservation → Bool
any_expired now [] = false
any_expired now (r ∷ rs) = is_expired now r || any_expired now rs

release_all-none_expired :
    (now : ℕ) (rs : List InventoryReservation) (items : Table DailyMenuItem)
    → any_expired now (release_all (is_expired now) (as_expired now) rs items).reservations ≡ false
unfolding release_all HoldStatus-discrete
release_all-none_expired now [] items = refl
release_all-none_expired now (r ∷ rs) items = elim (Bool-cases (is_expired now r)) [
  | inl overdue ↦
      rw overdue
        (release_all-none_expired now rs (release_inventory r.daily_menu_item_id r.quantity items))
  | inr in_time ↦ rw (in_time, in_time) (release_all-none_expired now rs items)
]

-- Releasing the expired holds keeps the stock balanced, and leaves no active hold past its time.
pub release_expired_holds_lem :
    (now : ℕ) (db : Db)
    → IsBalanced db
    → IsBalanced (release_expired_holds now db)
      × (any_expired now (release_expired_holds now db).reservations ≡ false)
unfolding release_expired_holds
release_expired_holds_lem now db b =
    let freed = release_where (is_expired now) (as_expired now) db in
    let same = expire_orders-KeepsStock now db.reservations freed in
    (
      keeps-IsBalanced same (release-IsBalanced 0 now db b).0,
      rw same.reservations (release_all-none_expired now db.reservations db.items),
    )

cancel_order-IsBalanced :
    (now customer_id order_id : ℕ) (db db' : Db)
    → IsBalanced db
    → cancel_order now customer_id order_id db ≡ ok db'
    → IsBalanced db'
unfolding cancel_order cancel_special
cancel_order-IsBalanced now customer_id order_id db db' b h =
    keeps-IsBalanced {db = release_where (is_active_for order_id) (as_released now) db}
      (grind (arith, release_for_unpaid_order-KeepsStock)) (release-IsBalanced order_id now db b).1

-- A cancellation keeps the stock balanced, whether it succeeds or is refused.
pub cancel_pending_order-IsBalanced :
    (now customer_id order_id : ℕ) (db : Db)
    → IsBalanced db
    → IsBalanced (cancel_pending_order now customer_id order_id db).db
unfolding cancel_pending_order
cancel_pending_order-IsBalanced now customer_id order_id db b =
    let first = (release_expired_holds_lem now db b).0 in
    elim (Checked-cases (cancel_order now customer_id order_id (release_expired_holds now db))) [
      | inl (e, refused) ↦ rw refused first
      | inr (db', done) ↦
          rw done
            (release_expired_holds_lem now db' (
              cancel_order-IsBalanced now customer_id order_id (release_expired_holds now db) db'
                first done)).0
    ]
