-- ===== src/Fulfillment/Chain.antt =====
-- What the chef's requests do to the missions.
use baytna.Prelude.{
  subst, ℕ, ◌≤◌, String, ◌≡◌, inl, inr, false, Option, some, arith, Bool-cases, Option-cases,
}
use baytna.Prelude.Table.{get, put, get-put}
use baytna.Entities.{Order}
use baytna.Entities.Status.{
  ◌is◌, OrderStatus, order_status, task_status, driver_status, stage_status, item_status,
  hold_status, payment_status, order_type_status, special_status, redemption_status,
}
use baytna.Delivery.Apart.{on_road, Apart, Apart-refl}
use baytna.Fulfillment.{AcceptRequest, order_for_chef, ensure_for_confirmed_order, accept}
use baytna.Fulfillment.Stages.{start_preparing, start_packaging}
use baytna.Session.{Db, Checked-cases, ok}
use baytna.Settings.{Settings}

-- One order moves from a status off the road, and the other rows stay.
pub order-Apart :
    {db db' : Db} (order_id : ℕ) (o o' : Order)
    → get order_id db.orders ≡ some o
    → on_road o.status ≡ false
    → db'.tasks ≡ db.tasks
    → db.next_id ≤ db'.next_id
    → db'.orders ≡ put order_id o' db.orders
    → Apart db db'
order-Apart {db} {db'} order_id o o' found off same ids after = record {
  tasks = same;
  ids = ids;
  orders = λ k p h r. ground (arith, get-put order_id k o' db.orders);
}

pub accept-Apart :
    (settings : Settings) (now chef_id order_id : ℕ) (payload : AcceptRequest) (db db' : Db)
    → accept settings now chef_id order_id payload db ≡ ok db'
    → Apart db db'
unfolding accept order_for_chef
accept-Apart settings now chef_id order_id payload db db' h =
    elim (Option-cases (get order_id db.orders)) [
      | inl missing ↦ absurd (ground arith)
      | inr (o, found) ↦ elim (Bool-cases (o.status is OrderStatus.confirmed)) [
        | inl confirmed ↦ elim (Checked-cases (ensure_for_confirmed_order settings order_id o db)) [
          | inl (e, refused) ↦ absurd (ground arith)
          | inr (f, ensured) ↦
              order-Apart order_id o
                (record o { status = OrderStatus.accepted_by_chef; updated_at = now }) found
                (ground arith) (ground arith) (ground arith) (ground arith)
        ]
        | inr other ↦ subst (Apart db) {x = db} (ground arith) (Apart-refl db)
      ]
    ]

pub start_preparing-Apart :
    (now chef_id order_id : ℕ) (chef_note : Option String) (db db' : Db)
    → start_preparing now chef_id order_id chef_note db ≡ ok db'
    → Apart db db'
unfolding start_preparing order_for_chef
start_preparing-Apart now chef_id order_id chef_note db db' h =
    elim (Option-cases (get order_id db.orders)) [
      | inl missing ↦ absurd (ground arith)
      | inr (o, found) ↦ elim (Bool-cases (o.status is OrderStatus.accepted_by_chef)) [
        | inl accepted' ↦
            order-Apart order_id o (record o { status = OrderStatus.preparing; updated_at = now })
              found (ground arith) (ground arith) (ground arith) (ground arith)
        | inr other ↦ subst (Apart db) {x = db} (ground arith) (Apart-refl db)
      ]
    ]

pub start_packaging-Apart :
    (now chef_id order_id : ℕ) (chef_note : Option String) (db db' : Db)
    → start_packaging now chef_id order_id chef_note db ≡ ok db'
    → Apart db db'
unfolding start_packaging order_for_chef
start_packaging-Apart now chef_id order_id chef_note db db' h = record {
  tasks = ground arith;
  ids = ground arith;
  orders = λ k o e r. ground arith;
}
