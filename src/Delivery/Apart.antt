-- ===== src/Delivery/Apart.antt =====
-- What the rest of the program does beside the deliveries.
use baytna.Prelude.{
  ℕ, ◌≤◌, ◌≡◌, refl, sym, ap, ◌∙◌, Bool, true, false, Option, none, some, arith, is_some,
}
use baytna.Prelude.Table.{get}
use baytna.Entities.{Order, DeliveryTask}
use baytna.Entities.Status.{OrderStatus, TaskStatus}
use baytna.Delivery.Coupling.{status_in, expected, IsInStep}
use baytna.Delivery.Runs.{IsSound}
use baytna.Session.{Db}

-- The statuses that an order has while a mission exists for it.
abbrev pub on_road : OrderStatus → Bool
on_road OrderStatus.ready_for_pickup = true
on_road OrderStatus.assigned_to_driver = true
on_road OrderStatus.picked_up = true
on_road OrderStatus.out_for_delivery = true
on_road OrderStatus.delivered = true
on_road _ = false

-- An operation that writes to no mission and to no order on the road.
pub record Apart (db db' : Db) : Type 0 where
  pub tasks : db'.tasks ≡ db.tasks
  pub ids : db.next_id ≤ db'.next_id
  pub orders :
      (k : ℕ) (o : Order)
      → get k db.orders ≡ some o
      → on_road o.status ≡ true
      → get k db'.orders ≡ some o

pub Apart-refl : (db : Db) → Apart db db
Apart-refl db = record { tasks = refl; ids = omega arith; orders = λ k o h r. h }

pub Apart-trans : {db1 db2 db3 : Db} → Apart db1 db2 → Apart db2 db3 → Apart db1 db3
Apart-trans a b = record {
  tasks = b.tasks ∙ a.tasks;
  ids = omega (arith, a.ids, b.ids);
  orders = λ k o h r. b.orders k o (a.orders k o h r) r;
}

-- A mission's stage puts its order on the road.
expected-on_road :
    (s : TaskStatus) (from : Option TaskStatus) (o : Option Order)
    → status_in o ≡ expected s from
    → is_some (expected s from) ≡ true
    → (p : Order) × (o ≡ some p) × (on_road p.status ≡ true)
expected-on_road s from none h k = absurd (ground arith)
expected-on_road s from (some p) h k = (p, refl, ground arith)

pub Apart-IsSound : {db db' : Db} → Apart db db' → IsSound db → IsSound db'
Apart-IsSound {db} {db'} a s = record {
  coupled = record {
    rows = λ k t h. in_step k t (rw (← a.tasks) h);
    unique = λ i j t u hi hj e. s.coupled.unique i j t u (rw (← a.tasks) hi) (rw (← a.tasks) hj) e;
    fresh = λ k t h. omega (arith, a.ids, s.coupled.fresh k t (rw (← a.tasks) h));
  };
  exclusive = λ i j t u hi hj. s.exclusive i j t u (rw (← a.tasks) hi) (rw (← a.tasks) hj);
}
  where
    in_step : (k : ℕ) (t : DeliveryTask) → get k db.tasks ≡ some t → IsInStep db'.orders t
    in_step k t h =
        let r = s.coupled.rows k t h in
        let on =
          expected-on_road t.status t.issue_from_status (get t.order_id db.orders) r.in_step
            r.order_known in
        record {
          order_known = r.order_known;
          in_step = ap status_in (a.orders t.order_id on.0 on.1 on.2 ∙ sym on.1) ∙ r.in_step;
          driven = r.driven;
          waiting = r.waiting;
        }
