-- ===== src/Fulfillment/Ready.antt =====
-- What readiness and a rejection do to the missions and to the stock.
use baytna.Prelude.{
  subst, ℕ, String, ◌≡◌, refl, inl, inr, ◌&&◌, Option, some, arith, Bool-cases, Option-cases,
}
use baytna.Prelude.Table.{get, get-put_self}
use baytna.Entities.{Order, ChefOrderFulfillment}
use baytna.Entities.Status.{
  ◌is◌, OrderStatus, Stage, order_status, task_status, driver_status, stage_status, item_status,
  hold_status, payment_status, order_type_status, special_status, redemption_status,
}
use baytna.Delivery.Apart.{Apart, Apart-IsSound}
use baytna.Delivery.Dispatch.{task_for_order}
use baytna.Delivery.Runs.{IsSound, add_task-IsSound}
use baytna.Fulfillment.{order_for_chef}
use baytna.Fulfillment.Chain.{order-Apart}
use baytna.Fulfillment.Stages.{add_missing_task, mark_ready, ready_for_pickup}
use baytna.Session.{Db, Checked-cases, ok}

mark_ready-Apart :
    (now chef_id order_id : ℕ) (chef_note : Option String) (o : Order) (f : ChefOrderFulfillment)
    (db db' : Db)
    → get order_id db.orders ≡ some o
    → mark_ready now chef_id order_id chef_note o f db ≡ ok db'
    → Apart db db'
unfolding mark_ready
mark_ready-Apart now chef_id order_id chef_note o f db db' found h =
    order-Apart order_id o (record o { status = OrderStatus.ready_for_pickup; updated_at = now })
      found (ground arith) (ground arith) (ground arith) (ground arith)

mark_ready-order :
    (now chef_id order_id : ℕ) (chef_note : Option String) (o : Order) (f : ChefOrderFulfillment)
    (db db' : Db)
    → mark_ready now chef_id order_id chef_note o f db ≡ ok db'
    → (p : Order) × (get order_id db'.orders ≡ some p) × (p.status ≡ OrderStatus.ready_for_pickup)
unfolding mark_ready
mark_ready-order now chef_id order_id chef_note o f db db' h =
    let p : Order = record o { status = OrderStatus.ready_for_pickup; updated_at = now } in
    (p, ground (arith, get-put_self order_id p db.orders), refl)

-- A ready order has a mission, the one it had or a new one.
add_missing_task-IsSound :
    (order_id : ℕ) (o p : Order) (db : Db)
    → get order_id db.orders ≡ some p
    → p.status ≡ OrderStatus.ready_for_pickup
    → IsSound db
    → IsSound (add_missing_task order_id o db)
unfolding add_missing_task
add_missing_task-IsSound order_id o p db found ready s =
    elim (Option-cases (task_for_order order_id db)) [
      | inl no_task ↦ rw no_task (add_task-IsSound order_id o p db found ready no_task s)
      | inr (t, has_task) ↦ rw has_task s
    ]

-- Marking an order ready keeps every mission in step with its order, gives the order a mission unless
-- it has one, and so leaves no order with two missions and no driver with two active ones.
pub ready_for_pickup-IsSound :
    (now chef_id order_id : ℕ) (chef_note : Option String) (db db' : Db)
    → ready_for_pickup now chef_id order_id chef_note db ≡ ok db'
    → IsSound db
    → IsSound db'
unfolding ready_for_pickup order_for_chef
ready_for_pickup-IsSound now chef_id order_id chef_note db db' h s =
    elim (Option-cases (get order_id db.orders)) [
      | inl missing ↦ absurd (ground arith)
      | inr (o, found) ↦ elim (Option-cases (get order_id db.fulfillments)) [
        | inl no_row ↦ absurd (ground arith)
        | inr (f, stored) ↦
            elim (Checked-cases (mark_ready now chef_id order_id chef_note o f db)) [
              | inl (e, refused) ↦ subst IsSound {x = db} (ground arith) s
              | inr (marked, done) ↦
                  elim (Bool-cases
                    (o.status is OrderStatus.ready_for_pickup && f.stage is Stage.ready)) [
                      | inl already ↦ subst IsSound {x = db} (ground arith) s
                      | inr not_yet ↦
                          let after =
                            mark_ready-order now chef_id order_id chef_note o f db marked done in
                          subst IsSound {x = add_missing_task order_id o marked} (ground arith) (
                            add_missing_task-IsSound order_id o after.0 marked after.1 after.2 (
                              Apart-IsSound
                                (mark_ready-Apart now chef_id order_id chef_note o f db marked found
                                  done)
                                s))
                    ]
            ]
      ]
    ]
