-- ===== src/Delivery/Completion.antt =====
-- The proof of delivery (`backend/app/modules/delivery/service.py`).
use mathlib.Core.Option
use text.Mathlib.Text.{◌==◌ as str_eq}
use baytna.Prelude.{ℕ, Option, none, some, Bool, not, ◌&&◌, ◌||◌, ◌==◌, if◌then◌else◌, String}
use baytna.Prelude.Table.{get, put}
use baytna.Entities.{MediaAsset, ProofReference, written, asset, Order, DeliveryTask, DriverProfile}
use baytna.Entities.Status.{
  ◌is◌, OrderStatus, order_status, TaskStatus, task_status, DriverStatus, driver_status,
  stage_status, item_status, hold_status, payment_status, order_type_status, special_status,
  redemption_status,
}
use baytna.Delivery.Repository.{transition_task, transition_order, owned_task}
use baytna.Journal.{order_event, audit, enqueue, emit}
use baytna.Loyalty.{award_for_delivered_order}
use baytna.Session.{Db, Checked, ok, ◌>>=◌, ◌>>◌, raise, raise_if, or_raise, or_crash}
use baytna.Settings.{Settings}
use baytna.Timing.{stamp_task}

-- `DeliveryProofRequest`
pub record DeliveryProof : Type 0 where
  pub proof_type : String
  pub proof_reference : Option String
  pub media_asset_id : Option ℕ

-- The photograph of a proof must be the driver's own, ready and meant for this.
abbrev pub asset_is_usable : ℕ → MediaAsset → Bool
asset_is_usable driver_id a =
    a.owner_user_id == driver_id && str_eq a.status "ready" && str_eq a.purpose "delivery_proof"

-- The asset that the proof records, if any.
unfoldable pub proof_asset : ℕ → DeliveryProof → Db → Checked (Option ℕ)
proof_asset driver_id proof db =
    if str_eq proof.proof_type "photo"
    then (elim proof.media_asset_id [
      | none ↦ ok none
      | some i ↦ elim (get i db.media) [
        | none ↦ raise 404 "delivery_proof_media_not_found"
        | some a ↦
            if asset_is_usable driver_id a
            then ok (some i)
            else raise 404 "delivery_proof_media_not_found"
      ]
    ])
    else ok none

-- `proof.proof_reference or (str(proof.media_asset_id) if proof.media_asset_id else None)`
unfoldable pub reference_of : DeliveryProof → Option ProofReference
reference_of proof = elim proof.proof_reference [
  | none ↦ Option.map asset proof.media_asset_id
  | some r ↦ if str_eq r "" then Option.map asset proof.media_asset_id else some (written r)
]

-- What the completion has written when it turns to the customer's points.
pub record Completion : Type 0 where
  pub order : Order
  pub db : Db

-- The rows that `mark_delivered` writes, once the mission, its order and the driver are found.
unfoldable pub complete :
    ℕ → ℕ → ℕ → DeliveryProof → DeliveryTask → Order → DriverProfile → Db → Checked Completion
unfolding transition_task transition_order
complete now driver_id task_id proof task order profile db = do
  photo ← proof_asset driver_id proof db
  raise_if
      (not (task.status is TaskStatus.to_customer)
        || not (order.status is OrderStatus.out_for_delivery))
      409 "delivery_complete_invalid_transition"
  task' ←
      or_raise 409 "mission_state_changed"
        (transition_task driver_id TaskStatus.to_customer TaskStatus.delivered task)
  order' ←
      or_raise 409 "order_state_changed"
        (transition_order now OrderStatus.out_for_delivery OrderStatus.delivered order)
  let db1 : Db = record db {
    tasks =
        put task_id
          (record (stamp_task order' task' now) {
            delivered_at = some now;
            delivery_proof_type = some proof.proof_type;
            delivery_proof_reference = reference_of proof;
            delivery_proof_media_asset_id = photo;
          })
          db.tasks;
    orders = put task.order_id order' db.orders;
    drivers = put driver_id (record profile { status = DriverStatus.available }) db.drivers;
  }
  let db2 =
      order_event now task.order_id (some OrderStatus.out_for_delivery) OrderStatus.delivered
        (some driver_id) "proof_of_delivery_recorded" db1
  let db3 = audit "driver.mission.delivered" (some driver_id) "delivery_task" task_id db2
  let db4 = emit order.customer_id "order_delivered" "order-delivered" task.order_id db3
  let db5 = enqueue "order.delivered" "order" task.order_id db4
  ok (record { order = order'; db = db5 })

-- `mark_delivered`, for a service that has its settings, as every router builds it.
unfoldable pub mark_delivered : Settings → ℕ → ℕ → ℕ → DeliveryProof → Db → Checked Db
mark_delivered settings now driver_id task_id proof db = do
  task ← owned_task driver_id task_id db
  order ← or_crash (get task.order_id db.orders)
  profile ← or_raise 403 "driver_profile_missing" (get driver_id db.drivers)
  (if task.status is TaskStatus.delivered && order.status is OrderStatus.delivered
      then ok db
      else do
        done ← complete now driver_id task_id proof task order profile db
        award_for_delivered_order settings task.order_id done.order done.db)
