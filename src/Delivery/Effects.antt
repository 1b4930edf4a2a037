-- ===== src/Delivery/Effects.antt =====
-- What each handler of a driver does to the missions and the orders.
use baytna.Prelude.{ℕ, ◌≡◌, refl, inl, inr, ◌&&◌, none, some, arith, Bool-cases, Option-cases}
use baytna.Prelude.Table.{get, get-put}
use baytna.Entities.{Order, DeliveryTask}
use baytna.Entities.Status.{
  ◌is◌, OrderStatus, TaskStatus, order_status, task_status, driver_status, stage_status,
  item_status, hold_status, payment_status, order_type_status, special_status, redemption_status,
}
use baytna.Delivery.Coupling.{IsCoupled, Effect, keeps, alone, with_order}
use baytna.Delivery.Dispatch.{accept_mission}
use baytna.Delivery.Issues.{DeliveryIssue, report_issue, resume_after_issue}
use baytna.Delivery.Transit.{arrive_pickup, confirm_pickup, start_delivery}
use baytna.Session.{Db, ok}

-- A claimed mission stands at the way to the chef, and its order is assigned.
pub accept_mission-Effect :
    (now driver_id task_id : ℕ) (db db' : Db)
    → IsCoupled db
    → accept_mission now driver_id task_id db ≡ ok db'
    → Effect db db'
unfolding accept_mission
accept_mission-Effect now driver_id task_id db db' c h =
    elim (Option-cases (get task_id db.tasks)) [
      | inl missing ↦ absurd (ground arith)
      | inr (old, found) ↦ elim (Option-cases (get old.order_id db.orders)) [
        | inl no_order ↦ absurd (ground arith)
        | inr (o, order_found) ↦
            let new : DeliveryTask = record old {
              driver_id = some driver_id;
              status = TaskStatus.to_pickup;
              accepted_at = some now;
            } in
            let o' : Order = record o {
              status = OrderStatus.assigned_to_driver;
              updated_at = now;
            } in
            with_order task_id old new o' (ground arith) (ground arith)
              (ground (arith, get-put old.order_id old.order_id o' db.orders, c.rows task_id old))
              (λ _. inr (driver_id, refl, ground arith))
      ]
    ]

pub arrive_pickup-Effect :
    (now driver_id task_id : ℕ) (db db' : Db)
    → IsCoupled db
    → arrive_pickup now driver_id task_id db ≡ ok db'
    → Effect db db'
unfolding arrive_pickup
arrive_pickup-Effect now driver_id task_id db db' c h = elim (Option-cases (get task_id db.tasks)) [
  | inl missing ↦ absurd (ground arith)
  | inr (old, found) ↦ elim (Bool-cases (old.status is TaskStatus.at_pickup)) [
    | inl already ↦ keeps (ground arith)
    | inr not_yet ↦
        let new : DeliveryTask = record old {
          status = TaskStatus.at_pickup;
          arrived_pickup_at = some now;
        } in
        alone task_id old new (ground arith) (ground arith) (ground (arith, c.rows task_id old))
          (λ _. inl (ground arith))
  ]
]

pub confirm_pickup-Effect :
    (now driver_id task_id : ℕ) (db db' : Db)
    → IsCoupled db
    → confirm_pickup now driver_id task_id db ≡ ok db'
    → Effect db db'
unfolding confirm_pickup
confirm_pickup-Effect now driver_id task_id db db' c h =
    elim (Option-cases (get task_id db.tasks)) [
      | inl missing ↦ absurd (ground arith)
      | inr (old, found) ↦ elim (Option-cases (get old.order_id db.orders)) [
        | inl no_order ↦ absurd (ground arith)
        | inr (o, order_found) ↦
            elim (Bool-cases
              (old.status is TaskStatus.picked_up && o.status is OrderStatus.picked_up)) [
                | inl already ↦ keeps (ground arith)
                | inr not_yet ↦
                    let new : DeliveryTask = record old {
                      status = TaskStatus.picked_up;
                      picked_up_at = some now;
                    } in
                    let o' : Order = record o {
                      status = OrderStatus.picked_up;
                      updated_at = now;
                    } in
                    with_order task_id old new o' (ground arith) (ground arith)
                      (ground
                        (arith, get-put old.order_id old.order_id o' db.orders, c.rows task_id old))
                      (λ _. inl (ground arith))
              ]
      ]
    ]

pub start_delivery-Effect :
    (now driver_id task_id : ℕ) (db db' : Db)
    → IsCoupled db
    → start_delivery now driver_id task_id db ≡ ok db'
    → Effect db db'
unfolding start_delivery
start_delivery-Effect now driver_id task_id db db' c h =
    elim (Option-cases (get task_id db.tasks)) [
      | inl missing ↦ absurd (ground arith)
      | inr (old, found) ↦ elim (Option-cases (get old.order_id db.orders)) [
        | inl no_order ↦ absurd (ground arith)
        | inr (o, order_found) ↦
            elim (Bool-cases
              (old.status is TaskStatus.to_customer && o.status is OrderStatus.out_for_delivery)) [
                | inl already ↦ keeps (ground arith)
                | inr not_yet ↦
                    let new : DeliveryTask = record old {
                      status = TaskStatus.to_customer;
                      route_started_at = some now;
                    } in
                    let o' : Order = record o {
                      status = OrderStatus.out_for_delivery;
                      updated_at = now;
                    } in
                    with_order task_id old new o' (ground arith) (ground arith)
                      (ground
                        (arith, get-put old.order_id old.order_id o' db.orders, c.rows task_id old))
                      (λ _. inl (ground arith))
              ]
      ]
    ]

pub report_issue-Effect :
    (driver_id task_id : ℕ) (payload : DeliveryIssue) (db db' : Db)
    → IsCoupled db
    → report_issue driver_id task_id payload db ≡ ok db'
    → Effect db db'
unfolding report_issue
report_issue-Effect driver_id task_id payload db db' c h =
    elim (Option-cases (get task_id db.tasks)) [
      | inl missing ↦ absurd (ground arith)
      | inr (old, found) ↦ elim (Bool-cases (old.status is TaskStatus.delivery_issue)) [
        | inl already ↦ keeps (ground arith)
        | inr not_yet ↦
            let new : DeliveryTask = record old {
              status = TaskStatus.delivery_issue;
              issue_from_status = some old.status;
              issue_code = some payload.issue_code;
              issue_note = payload.note;
            } in
            alone task_id old new (ground arith) (ground arith) (ground (arith, c.rows task_id old))
              (λ _. inl (ground arith))
      ]
    ]

pub resume_after_issue-Effect :
    (driver_id task_id : ℕ) (db db' : Db)
    → IsCoupled db
    → resume_after_issue driver_id task_id db ≡ ok db'
    → Effect db db'
unfolding resume_after_issue
resume_after_issue-Effect driver_id task_id db db' c h =
    elim (Option-cases (get task_id db.tasks)) [
      | inl missing ↦ absurd (ground arith)
      | inr (old, found) ↦ elim (Option-cases old.issue_from_status) [
        | inl nowhere ↦ absurd (ground arith)
        | inr (restore, from) ↦
            let new : DeliveryTask = record old {
              status = restore;
              issue_from_status = none;
              issue_code = none;
              issue_note = none;
            } in
            alone task_id old new (ground arith) (ground arith) (ground (arith, c.rows task_id old))
              (λ _. inl (ground arith))
      ]
    ]
