-- ===== src/Delivery/Coupling.antt =====
-- A mission and its order move together.
use baytna.Prelude.{ℕ, ◌<◌, ◌≡◌, true, Option, none, some, arith, is_some, ◌⊎◌, inl, inr, ◌&&◌}
use baytna.Prelude.Table.{Table, get, put, get-put, find-none}
use baytna.Entities.{Order, DeliveryTask}
use baytna.Entities.Status.{OrderStatus, TaskStatus}
use baytna.Delivery.Repository.{is_active, has_driver, active_task_for_driver}
use baytna.Session.{Db}

abbrev pub status_in : Option Order → Option OrderStatus
status_in none = none
status_in (some o) = some o.status

-- The order's status while its mission is in the stage; for a mission with an issue, the stage that
-- it came from counts.
abbrev pub in_stage : TaskStatus → Option OrderStatus
in_stage TaskStatus.unassigned = some OrderStatus.ready_for_pickup
in_stage TaskStatus.to_pickup = some OrderStatus.assigned_to_driver
in_stage TaskStatus.at_pickup = some OrderStatus.assigned_to_driver
in_stage TaskStatus.picked_up = some OrderStatus.picked_up
in_stage TaskStatus.to_customer = some OrderStatus.out_for_delivery
in_stage TaskStatus.delivered = some OrderStatus.delivered
in_stage TaskStatus.delivery_issue = none
in_stage TaskStatus.cancelled = none

abbrev pub came_from : Option TaskStatus → Option OrderStatus
came_from none = none
came_from (some s) = in_stage s

abbrev pub expected : TaskStatus → Option TaskStatus → Option OrderStatus
expected TaskStatus.delivery_issue from = came_from from
expected s from = in_stage s

-- What a row of `delivery_tasks` has to do with the orders.
pub record IsInStep (orders : Table Order) (t : DeliveryTask) : Type 0 where
  pub order_known : is_some (expected t.status t.issue_from_status) ≡ true
  pub in_step : status_in (get t.order_id orders) ≡ expected t.status t.issue_from_status
  pub driven : is_active t.status ≡ true → is_some t.driver_id ≡ true
  pub waiting : t.status ≡ TaskStatus.unassigned → t.driver_id ≡ none

-- Every mission is in step with its order, and no order has two missions.
pub record IsCoupled (db : Db) : Type 0 where
  pub rows : (k : ℕ) (t : DeliveryTask) → get k db.tasks ≡ some t → IsInStep db.orders t
  pub unique :
      (j k : ℕ) (t u : DeliveryTask)
      → get j db.tasks ≡ some t
      → get k db.tasks ≡ some u
      → t.order_id ≡ u.order_id
      → j ≡ k
  pub fresh : (k : ℕ) (t : DeliveryTask) → get k db.tasks ≡ some t → k < db.next_id

-- A handler that writes to no mission and no order.
pub record KeepsMissions (db db' : Db) : Type 0 where
  pub tasks : db'.tasks ≡ db.tasks
  pub orders : db'.orders ≡ db.orders
  pub next_id : db'.next_id ≡ db.next_id

-- What a transition of the mission `k` writes: its new row, and perhaps its order.
pub record Moves (db db' : Db) (k : ℕ) (old new : DeliveryTask) : Type 0 where
  pub found : get k db.tasks ≡ some old
  pub tasks_after : db'.tasks ≡ put k new db.tasks
  pub same_order : new.order_id ≡ old.order_id
  pub ids_after : db'.next_id ≡ db.next_id

-- An active mission was active before and keeps its driver, or its driver had none.
abbrev pub Succeeds : Db → DeliveryTask → DeliveryTask → Type 0
Succeeds db old new =
    is_active new.status ≡ true
    → ((is_active old.status ≡ true) × (new.driver_id ≡ old.driver_id))
      ⊎ ((d : ℕ) × (new.driver_id ≡ some d) × (active_task_for_driver d db ≡ none))

-- What a driver's handler does to the missions and the orders.
pub data Effect (db db' : Db) : Type 0 where
  keeps : KeepsMissions db db' → Effect db db'
  alone :
      (k : ℕ) (old new : DeliveryTask)
      → Moves db db' k old new
      → db'.orders ≡ db.orders
      → IsInStep db.orders new
      → Succeeds db old new
      → Effect db db'
  with_order :
      (k : ℕ) (old new : DeliveryTask) (o : Order)
      → Moves db db' k old new
      → db'.orders ≡ put old.order_id o db.orders
      → IsInStep db'.orders new
      → Succeeds db old new
      → Effect db db'

module _ {db db' : Db} {k : ℕ} {old new : DeliveryTask} (c : IsCoupled db)
    (m : Moves db db' k old new) where
  moved_unique :
      (i j : ℕ) (t u : DeliveryTask)
      → get i db'.tasks ≡ some t
      → get j db'.tasks ≡ some u
      → t.order_id ≡ u.order_id
      → i ≡ j
  moved_unique i j t u hi hj e = ground (
    arith,
    get-put k i new db.tasks,
    get-put k j new db.tasks,
    c.unique i j t u,
    c.unique i j old u,
    c.unique i j t old,
  )

  moved_fresh : (j : ℕ) (t : DeliveryTask) → get j db'.tasks ≡ some t → j < db'.next_id
  moved_fresh j t h = ground (arith, get-put k j new db.tasks, c.fresh j t, c.fresh k old)

  -- The order takes a new status with the mission.
  with_order-IsCoupled :
      (o : Order)
      → db'.orders ≡ put old.order_id o db.orders
      → IsInStep db'.orders new
      → IsCoupled db'
  with_order-IsCoupled o after here = record {
    rows = λ j t h. other j t h;
    unique = moved_unique;
    fresh = moved_fresh;
  }
    where
      other : (j : ℕ) (t : DeliveryTask) → get j db'.tasks ≡ some t → IsInStep db'.orders t
      other j t h = ground (
        arith,
        here,
        get-put k j new db.tasks,
        get-put old.order_id t.order_id o db.orders,
        c.rows j t,
        c.unique j k t old,
      )

  -- The orders stay as they are.
  alone-IsCoupled : db'.orders ≡ db.orders → IsInStep db.orders new → IsCoupled db'
  alone-IsCoupled after here = record {
    rows = λ j t h. other j t h;
    unique = moved_unique;
    fresh = moved_fresh;
  }
    where
      other : (j : ℕ) (t : DeliveryTask) → get j db'.tasks ≡ some t → IsInStep db'.orders t
      other j t h = ground (arith, here, get-put k j new db.tasks, c.rows j t)

keeps-IsCoupled : {db db' : Db} → KeepsMissions db db' → IsCoupled db → IsCoupled db'
keeps-IsCoupled {db} {db'} k c = record {
  rows = λ j t h. same_rows j t (rw (← k.tasks) h);
  unique = λ i j t u hi hj. c.unique i j t u (rw (← k.tasks) hi) (rw (← k.tasks) hj);
  fresh = λ j t h. rw k.next_id (c.fresh j t (rw (← k.tasks) h));
}
  where
    same_rows : (j : ℕ) (t : DeliveryTask) → get j db.tasks ≡ some t → IsInStep db'.orders t
    same_rows j t h = rw k.orders (c.rows j t h)

pub Effect-IsCoupled : {db db' : Db} → Effect db db' → IsCoupled db → IsCoupled db'
Effect-IsCoupled (keeps k) c = keeps-IsCoupled k c
Effect-IsCoupled (alone k old new m after here _) c = alone-IsCoupled c m after here
Effect-IsCoupled (with_order k old new o m after here _) c = with_order-IsCoupled c m o after here

-- No driver has two active missions.
abbrev pub IsExclusive : Db → Type 0
IsExclusive db =
    (i j : ℕ) (t u : DeliveryTask)
    → get i db.tasks ≡ some t
    → get j db.tasks ≡ some u
    → is_active t.status ≡ true
    → is_active u.status ≡ true
    → t.driver_id ≡ u.driver_id
    → i ≡ j

-- A mission's new row does not collide with another active one.
no_collision :
    {db db' : Db} {k : ℕ} {old new : DeliveryTask}
    → Moves db db' k old new
    → Succeeds db old new
    → IsExclusive db
    → (j : ℕ) (u : DeliveryTask) → get j db.tasks ≡ some u
    → is_active new.status ≡ true
    → is_active u.status ≡ true
    → new.driver_id ≡ u.driver_id
    → k ≡ j
unfolding active_task_for_driver
no_collision {db} {k = k} {old} {new} m s x j u hj an au e = elim (s an) [
  | inl (was, same) ↦ x k j old u m.found hj was au (ground arith)
  | inr (d, its, none_active) ↦ absurd (
      ground (
        arith,
        find-none (λ t. has_driver d t.driver_id && is_active t.status) db.tasks j u none_active hj,
      ))
]

Moves-IsExclusive :
    {db db' : Db} {k : ℕ} {old new : DeliveryTask}
    → Moves db db' k old new
    → Succeeds db old new
    → IsExclusive db
    → IsExclusive db'
Moves-IsExclusive {db} {db'} {k} {old} {new} m s x i j t u hi hj at' au e = ground (
  arith,
  get-put k i new db.tasks,
  get-put k j new db.tasks,
  x i j t u,
  no_collision m s x j u,
  no_collision m s x i t,
)

pub Effect-IsExclusive : {db db' : Db} → Effect db db' → IsExclusive db → IsExclusive db'
Effect-IsExclusive (keeps k) x = λ i j t u hi hj. x i j t u (rw (← k.tasks) hi) (rw (← k.tasks) hj)
Effect-IsExclusive (alone k old new m after here s) x = Moves-IsExclusive m s x
Effect-IsExclusive (with_order k old new o m after here s) x = Moves-IsExclusive m s x
