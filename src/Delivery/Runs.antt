-- ===== src/Delivery/Runs.antt =====
-- The calls that chefs' and drivers' requests make to the delivery service, in any order.
use baytna.Prelude.{
  subst, ℕ, ◌≡◌, inl, inr, Bool, none, some, List, [], ◌∷◌, arith, ◌==◌, Option-cases, ◌&&◌,
  if◌then◌else◌, is_none, Bool-cases,
}
use baytna.Prelude.Table.{get, get-put, find-none, Table, empty, row}
use baytna.Entities.{Order}
use baytna.Entities.Status.{
  OrderStatus, ◌is◌, order_status, task_status, driver_status, stage_status, item_status,
  hold_status, payment_status, order_type_status, special_status, redemption_status,
}
use baytna.Delivery.Completion.{DeliveryProof, mark_delivered}
use baytna.Delivery.Coupling.{IsCoupled, Effect, Effect-IsCoupled, IsExclusive, Effect-IsExclusive}
use baytna.Delivery.Dispatch.{
  set_availability, new_task, task_for_order, add_task, ensure_task_for_ready_order, accept_mission,
  sync_tasks, sync_ready_orders,
}
use baytna.Delivery.Effects.{
  accept_mission-Effect, arrive_pickup-Effect, confirm_pickup-Effect, start_delivery-Effect,
  report_issue-Effect, resume_after_issue-Effect,
}
use baytna.Delivery.Finish.{mark_delivered-Effect, set_availability-Effect}
use baytna.Delivery.Issues.{DeliveryIssue, report_issue, resume_after_issue}
use baytna.Delivery.Transit.{arrive_pickup, confirm_pickup, start_delivery}
use baytna.Session.{Db, Checked, Checked-cases, ok, settle}
use baytna.Settings.{Settings}

pub data DeliveryCall : Type 0 where
  ensure_task : ℕ → DeliveryCall
  availability : ℕ → Bool → DeliveryCall
  claim arrive confirm start resume : ℕ → ℕ → ℕ → DeliveryCall
  deliver : ℕ → ℕ → ℕ → DeliveryProof → DeliveryCall
  report : ℕ → ℕ → DeliveryIssue → DeliveryCall
  sync : DeliveryCall

-- The handler behind a call: the instant first, then the driver and the mission.
unfoldable pub perform : Settings → DeliveryCall → Db → Checked Db
perform settings (ensure_task order_id) db = ensure_task_for_ready_order order_id db
perform settings (availability d wanted) db = set_availability d wanted db
perform settings (claim now d t) db = accept_mission now d t db
perform settings (arrive now d t) db = arrive_pickup now d t db
perform settings (confirm now d t) db = confirm_pickup now d t db
perform settings (start now d t) db = start_delivery now d t db
perform settings (resume now d t) db = resume_after_issue d t db
perform settings (deliver now d t proof) db = mark_delivered settings now d t proof db
perform settings (report d t issue) db = report_issue d t issue db
perform settings sync db = ok (sync_ready_orders db)

unfoldable pub run : Settings → List DeliveryCall → Db → Db
run settings [] db = db
run settings (c ∷ cs) db = run settings cs (settle db (perform settings c db))

-- What the calls keep.
pub record IsSound (db : Db) : Type 0 where
  pub coupled : IsCoupled db
  pub exclusive : IsExclusive db

Effect-IsSound : {db db' : Db} → Effect db db' → IsSound db → IsSound db'
Effect-IsSound e s = record {
  coupled = Effect-IsCoupled e s.coupled;
  exclusive = Effect-IsExclusive e s.exclusive;
}

-- A new task is for an order that has none, and waits for a driver.
pub add_task-IsSound :
    (order_id : ℕ) (o p : Order) (db : Db)
    → get order_id db.orders ≡ some p
    → p.status ≡ OrderStatus.ready_for_pickup
    → task_for_order order_id db ≡ none
    → IsSound db
    → IsSound (add_task order_id o db)
unfolding task_for_order
add_task-IsSound order_id o p db found ready no_task s = record {
  coupled = record {
    rows = λ k t h.
        ground (arith, get-put db.next_id k (new_task order_id o) db.tasks, s.coupled.rows k t);
    unique = λ j k t u hj hk e. ground (
      arith,
      get-put db.next_id j (new_task order_id o) db.tasks,
      get-put db.next_id k (new_task order_id o) db.tasks,
      s.coupled.unique j k t u,
      find-none (λ v. v.order_id == order_id) db.tasks j t no_task,
      find-none (λ v. v.order_id == order_id) db.tasks k u no_task,
    );
    fresh = λ k t h.
        ground (arith, get-put db.next_id k (new_task order_id o) db.tasks, s.coupled.fresh k t);
  };
  exclusive = λ i j t u hi hj at' au e. ground (
    arith,
    get-put db.next_id i (new_task order_id o) db.tasks,
    get-put db.next_id j (new_task order_id o) db.tasks,
    s.exclusive i j t u,
  );
}

ensure_task-IsSound :
    (order_id : ℕ) (db db' : Db)
    → ensure_task_for_ready_order order_id db ≡ ok db'
    → IsSound db
    → IsSound db'
unfolding ensure_task_for_ready_order
ensure_task-IsSound order_id db db' h s = elim (Option-cases (get order_id db.orders)) [
  | inl missing ↦ absurd (ground arith)
  | inr (o, found) ↦ elim (Option-cases (task_for_order order_id db)) [
    | inl no_task ↦
        subst IsSound {x = add_task order_id o db} (ground arith)
          (add_task-IsSound order_id o o db found (ground arith) no_task s)
    | inr (t, has_task) ↦ subst IsSound {x = db} (ground arith) s
  ]
]

sync_tasks-IsSound : (t : Table Order) (db : Db) → IsSound db → IsSound (sync_tasks t db)
unfolding sync_tasks
sync_tasks-IsSound empty db s = s
sync_tasks-IsSound (row k o rest) db s =
    let ready = o.status is OrderStatus.ready_for_pickup && is_none (task_for_order k db) in
    let next = if ready then settle db (ensure_task_for_ready_order k db) else db in
    sync_tasks-IsSound rest next (elim (Checked-cases (ensure_task_for_ready_order k db)) [
      | inl (e, refused) ↦ subst IsSound {x = db} (ground arith) s
      | inr (db', made) ↦ elim (Bool-cases ready) [
        | inl yes' ↦ subst IsSound {x = db'} (ground arith) (ensure_task-IsSound k db db' made s)
        | inr no' ↦ subst IsSound {x = db} (ground arith) s
      ]
    ])

pub perform-IsSound :
    (settings : Settings) (c : DeliveryCall) (db db' : Db)
    → perform settings c db ≡ ok db'
    → IsSound db
    → IsSound db'
unfolding perform sync_ready_orders
perform-IsSound settings (ensure_task order_id) db db' h s = ensure_task-IsSound order_id db db' h s
perform-IsSound settings (availability d wanted) db db' h s =
    Effect-IsSound (set_availability-Effect d wanted db db' s.coupled h) s
perform-IsSound settings (claim now d t) db db' h s =
    Effect-IsSound (accept_mission-Effect now d t db db' s.coupled h) s
perform-IsSound settings (arrive now d t) db db' h s =
    Effect-IsSound (arrive_pickup-Effect now d t db db' s.coupled h) s
perform-IsSound settings (confirm now d t) db db' h s =
    Effect-IsSound (confirm_pickup-Effect now d t db db' s.coupled h) s
perform-IsSound settings (start now d t) db db' h s =
    Effect-IsSound (start_delivery-Effect now d t db db' s.coupled h) s
perform-IsSound settings (resume now d t) db db' h s =
    Effect-IsSound (resume_after_issue-Effect d t db db' s.coupled h) s
perform-IsSound settings (deliver now d t proof) db db' h s =
    Effect-IsSound (mark_delivered-Effect settings now d t proof db db' s.coupled h) s
perform-IsSound settings (report d t issue) db db' h s =
    Effect-IsSound (report_issue-Effect d t issue db db' s.coupled h) s
perform-IsSound settings sync db db' h s =
    subst IsSound {x = sync_tasks db.orders db} (ground arith) (sync_tasks-IsSound db.orders db s)

-- Whatever calls arrive, and in whatever order, every mission stays in step with its order, no order
-- gets two missions and no driver two active ones.
pub run-IsSound :
    (settings : Settings) (cs : List DeliveryCall) (db : Db)
    → IsSound db
    → IsSound (run settings cs db)
unfolding run
run-IsSound settings [] db s = s
run-IsSound settings (c ∷ cs) db s = elim (Checked-cases (perform settings c db)) [
  | inl (e, raised) ↦ rw raised (run-IsSound settings cs db s)
  | inr (db', done) ↦
      rw done (run-IsSound settings cs db' (perform-IsSound settings c db db' done s))
]
