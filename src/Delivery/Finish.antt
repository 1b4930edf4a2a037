-- ===== src/Delivery/Finish.antt =====
-- What the ends of a mission do: the proof of delivery, and the driver's availability.
use baytna.Prelude.{ℕ, ◌≡◌, inl, inr, Bool, true, ◌&&◌, some, arith, Bool-cases, Option-cases}
use baytna.Prelude.Table.{get, get-put}
use baytna.Entities.{Order, DeliveryTask, DriverProfile}
use baytna.Entities.Status.{
  ◌is◌, OrderStatus, TaskStatus, order_status, task_status, driver_status, stage_status,
  item_status, hold_status, payment_status, order_type_status, special_status, redemption_status,
}
use baytna.Delivery.Completion.{
  DeliveryProof, proof_asset, reference_of, Completion, complete, mark_delivered,
}
use baytna.Delivery.Coupling.{IsCoupled, KeepsMissions, Effect, keeps, alone, with_order}
use baytna.Delivery.Dispatch.{set_availability}
use baytna.Delivery.Repository.{has_driver}
use baytna.Loyalty.{award_for_delivered_order}
use baytna.Session.{Db, Checked-cases, ok}
use baytna.Settings.{Settings}
use baytna.Timing.{stamp_task}

pub award-KeepsMissions :
    (settings : Settings) (order_id : ℕ) (order : Order) (db : Db) {db' : Db}
    → award_for_delivered_order settings order_id order db ≡ ok db'
    → KeepsMissions db db'
unfolding award_for_delivered_order
award-KeepsMissions settings order_id order db h = ground arith

-- The award after a completion changes nothing of it here.
then_keeps : {db db1 db2 : Db} → KeepsMissions db1 db2 → Effect db db1 → Effect db db2
then_keeps k (keeps j) = keeps (ground arith)
then_keeps k (alone t old new m after here s) = alone t old new (ground arith) (ground arith) here s
then_keeps k (with_order t old new o m after here s) =
    with_order t old new o (ground arith) (ground arith) (rw k.orders here) s

complete-Effect :
    (now driver_id task_id : ℕ) (proof : DeliveryProof) (old : DeliveryTask) (o : Order)
    (p : DriverProfile) (db : Db) (done : Completion)
    → IsCoupled db
    → get task_id db.tasks ≡ some old
    → get old.order_id db.orders ≡ some o
    → has_driver driver_id old.driver_id ≡ true
    → complete now driver_id task_id proof old o p db ≡ ok done
    → Effect db done.db
unfolding complete stamp_task
complete-Effect now driver_id task_id proof old o p db done c found order_found owned h =
    elim (Checked-cases (proof_asset driver_id proof db)) [
      | inl (e, refused) ↦ absurd (ground arith)
      | inr (photo, shown) ↦
          let o' : Order = record o { status = OrderStatus.delivered; updated_at = now } in
          let new : DeliveryTask =
            record (stamp_task o' (record old { status = TaskStatus.delivered }) now) {
              delivered_at = some now;
              delivery_proof_type = some proof.proof_type;
              delivery_proof_reference = reference_of proof;
              delivery_proof_media_asset_id = photo;
            } in
          with_order task_id old new o' (ground arith) (ground arith)
            (ground (arith, get-put old.order_id old.order_id o' db.orders, c.rows task_id old))
            (λ e. cc)
    ]

-- A delivered mission stands beside a delivered order.
pub mark_delivered-Effect :
    (settings : Settings) (now driver_id task_id : ℕ) (proof : DeliveryProof) (db db' : Db)
    → IsCoupled db
    → mark_delivered settings now driver_id task_id proof db ≡ ok db'
    → Effect db db'
unfolding mark_delivered
mark_delivered-Effect settings now driver_id task_id proof db db' c h =
    elim (Option-cases (get task_id db.tasks)) [
      | inl missing ↦ absurd (ground arith)
      | inr (old, found) ↦ elim (Option-cases (get old.order_id db.orders)) [
        | inl no_order ↦ absurd (ground arith)
        | inr (o, order_found) ↦ elim (Option-cases (get driver_id db.drivers)) [
          | inl no_profile ↦ absurd (ground arith)
          | inr (p, profile_found) ↦
              elim (Bool-cases
                (old.status is TaskStatus.delivered && o.status is OrderStatus.delivered)) [
                  | inl already ↦ keeps (ground arith)
                  | inr not_yet ↦
                      elim (Checked-cases (complete now driver_id task_id proof old o p db)) [
                        | inl (e, refused) ↦ absurd (ground arith)
                        | inr (done, completed) ↦
                            then_keeps
                              (award-KeepsMissions settings old.order_id done.order done.db
                                (ground arith))
                              (complete-Effect now driver_id task_id proof old o p db done c found
                                order_found (ground arith) completed)
                      ]
                ]
        ]
      ]
    ]

pub set_availability-Effect :
    (driver_id : ℕ) (wanted : Bool) (db db' : Db)
    → IsCoupled db
    → set_availability driver_id wanted db ≡ ok db'
    → Effect db db'
unfolding set_availability
set_availability-Effect driver_id wanted db db' c h = keeps (ground arith)
