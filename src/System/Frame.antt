-- ===== src/System/Frame.antt =====
-- The requests of drivers and chefs write to no item, no hold and no payment.
use baytna.Prelude.{ℕ, String, ◌≡◌, inl, inr, Option, arith}
use baytna.Prelude.Table.{Table, empty, row}
use baytna.Entities.{Order, DeliveryTask, DriverProfile, ChefOrderFulfillment}
use baytna.Delivery.Completion.{DeliveryProof, proof_asset, Completion, complete, mark_delivered}
use baytna.Delivery.Dispatch.{
  set_availability, ensure_task_for_ready_order, accept_mission, sync_tasks, sync_ready_orders,
}
use baytna.Delivery.Issues.{report_issue, resume_after_issue}
use baytna.Delivery.Runs.{
  DeliveryCall, perform, ensure_task, availability, claim, arrive, confirm, start, resume, deliver,
  report, sync,
}
use baytna.Delivery.Transit.{arrive_pickup, confirm_pickup, start_delivery}
use baytna.Fulfillment.{
  AcceptRequest, detail, accept, ensure_for_confirmed_order, stored, sync_rows, sync_queue,
}
use baytna.Fulfillment.Stages.{
  start_preparing, start_packaging, add_missing_task, mark_ready, ready_for_pickup,
}
use baytna.Loyalty.{award_for_delivered_order}
use baytna.Session.{Db, Checked-cases, ok, Checked, err}
use baytna.Settings.{Settings}

-- An operation that leaves the stock and the payments as they are.
pub record KeepsLedger (db db' : Db) : Type 0 where
  pub items : db'.items ≡ db.items
  pub reservations : db'.reservations ≡ db.reservations
  pub payments : db'.payments ≡ db.payments

KeepsLedger-trans :
    {db1 db2 db3 : Db} → KeepsLedger db1 db2 → KeepsLedger db2 db3 → KeepsLedger db1 db3
KeepsLedger-trans a b = ground arith

complete-KeepsLedger :
    (now driver_id task_id : ℕ) (proof : DeliveryProof) (t : DeliveryTask) (o : Order)
    (p : DriverProfile) (db : Db) (done : Completion)
    → complete now driver_id task_id proof t o p db ≡ ok done
    → KeepsLedger db done.db
unfolding complete
complete-KeepsLedger now driver_id task_id proof t o p db done h =
    elim (Checked-cases (proof_asset driver_id proof db)) [
      | inl (e, refused) ↦ absurd (ground arith)
      | inr (photo, shown) ↦ ground arith
    ]

award-KeepsLedger :
    (settings : Settings) (order_id : ℕ) (o : Order) (db db' : Db)
    → award_for_delivered_order settings order_id o db ≡ ok db'
    → KeepsLedger db db'
unfolding award_for_delivered_order
award-KeepsLedger settings order_id o db db' h = ground arith

mark_delivered-KeepsLedger :
    (settings : Settings) (now driver_id task_id : ℕ) (proof : DeliveryProof) (db db' : Db)
    → mark_delivered settings now driver_id task_id proof db ≡ ok db'
    → KeepsLedger db db'
unfolding mark_delivered
mark_delivered-KeepsLedger settings now driver_id task_id proof db db' h =
    grind (arith, complete-KeepsLedger, award-KeepsLedger)

module _ (now driver_id task_id : ℕ) (db db' : Db) where
  accept_mission-KeepsLedger : accept_mission now driver_id task_id db ≡ ok db' → KeepsLedger db db'
  unfolding accept_mission
  accept_mission-KeepsLedger h = ground arith

  arrive_pickup-KeepsLedger : arrive_pickup now driver_id task_id db ≡ ok db' → KeepsLedger db db'
  unfolding arrive_pickup
  arrive_pickup-KeepsLedger h = ground arith

  confirm_pickup-KeepsLedger : confirm_pickup now driver_id task_id db ≡ ok db' → KeepsLedger db db'
  unfolding confirm_pickup
  confirm_pickup-KeepsLedger h = ground arith

  start_delivery-KeepsLedger : start_delivery now driver_id task_id db ≡ ok db' → KeepsLedger db db'
  unfolding start_delivery
  start_delivery-KeepsLedger h = ground arith

ensure_task-KeepsLedger :
    (order_id : ℕ) (db db' : Db)
    → ensure_task_for_ready_order order_id db ≡ ok db'
    → KeepsLedger db db'
unfolding ensure_task_for_ready_order
ensure_task-KeepsLedger order_id db db' h = ground arith

sync_tasks-KeepsLedger : (t : Table Order) (db : Db) → KeepsLedger db (sync_tasks t db)
unfolding sync_tasks
sync_tasks-KeepsLedger empty db = ground arith
sync_tasks-KeepsLedger (row k o rest) db = elim (Checked-cases (ensure_task_for_ready_order k db)) [
  | inl (e, refused) ↦ ground (arith, sync_tasks-KeepsLedger rest db)
  | inr (db', made) ↦ ground (
    arith,
    ensure_task-KeepsLedger k db db' made,
    sync_tasks-KeepsLedger rest db,
    sync_tasks-KeepsLedger rest db',
  )
]

pub perform-KeepsLedger :
    (settings : Settings) (c : DeliveryCall) (db db' : Db)
    → perform settings c db ≡ ok db'
    → KeepsLedger db db'
unfolding perform sync_ready_orders set_availability resume_after_issue report_issue
perform-KeepsLedger settings (ensure_task order_id) db db' h =
    ensure_task-KeepsLedger order_id db db' h
perform-KeepsLedger settings (availability d wanted) db db' h = ground arith
perform-KeepsLedger settings (claim now d t) db db' h = accept_mission-KeepsLedger now d t db db' h
perform-KeepsLedger settings (arrive now d t) db db' h = arrive_pickup-KeepsLedger now d t db db' h
perform-KeepsLedger settings (confirm now d t) db db' h =
    confirm_pickup-KeepsLedger now d t db db' h
perform-KeepsLedger settings (start now d t) db db' h = start_delivery-KeepsLedger now d t db db' h
perform-KeepsLedger settings (resume now d t) db db' h = ground arith
perform-KeepsLedger settings (deliver now d t proof) db db' h =
    mark_delivered-KeepsLedger settings now d t proof db db' h
perform-KeepsLedger settings (report d t issue) db db' h = ground arith
perform-KeepsLedger settings sync db db' h = ground (arith, sync_tasks-KeepsLedger db.orders db)

pub detail-KeepsLedger :
    (settings : Settings) (chef order_id : ℕ) (db db' : Db)
    → detail settings chef order_id db ≡ ok db'
    → KeepsLedger db db'
unfolding detail
detail-KeepsLedger settings chef order_id db db' h = ground arith

pub accept-KeepsLedger :
    (settings : Settings) (now chef order_id : ℕ) (payload : AcceptRequest) (db db' : Db)
    → accept settings now chef order_id payload db ≡ ok db'
    → KeepsLedger db db'
unfolding accept
accept-KeepsLedger settings now chef order_id payload db db' h = ground arith

module _ (now chef order_id : ℕ) (chef_note : Option String) (db db' : Db) where
  pub start_preparing-KeepsLedger :
      start_preparing now chef order_id chef_note db ≡ ok db' → KeepsLedger db db'
  unfolding start_preparing
  start_preparing-KeepsLedger h = ground arith

  pub start_packaging-KeepsLedger :
      start_packaging now chef order_id chef_note db ≡ ok db' → KeepsLedger db db'
  unfolding start_packaging
  start_packaging-KeepsLedger h = ground arith

  pub ready_for_pickup-KeepsLedger :
      ready_for_pickup now chef order_id chef_note db ≡ ok db' → KeepsLedger db db'
  unfolding ready_for_pickup mark_ready add_missing_task
  ready_for_pickup-KeepsLedger h = ground arith

stored-KeepsLedger :
    (k : ℕ) (m : Checked ChefOrderFulfillment) (db : Db) → KeepsLedger db (stored k m db)
stored-KeepsLedger k (ok f) db = ground arith
stored-KeepsLedger k (err e) db = ground arith

sync_rows-KeepsLedger :
    (settings : Settings) (chef : ℕ) (t : Table Order) (db : Db)
    → KeepsLedger db (sync_rows settings chef t db)
unfolding sync_rows
sync_rows-KeepsLedger settings chef empty db = ground arith
sync_rows-KeepsLedger settings chef (row k o rest) db =
    let m = ensure_for_confirmed_order settings k o db in
    ground (
      arith,
      stored-KeepsLedger k m db,
      sync_rows-KeepsLedger settings chef rest db,
      sync_rows-KeepsLedger settings chef rest (stored k m db),
    )

pub sync_queue-KeepsLedger :
    (settings : Settings) (chef : ℕ) (db : Db) → KeepsLedger db (sync_queue settings chef db)
unfolding sync_queue
sync_queue-KeepsLedger settings chef db = sync_rows-KeepsLedger settings chef db.orders db
