-- ===== src/Fulfillment/Queue.antt =====
-- The chef's queue is complete once it is synchronised.
use baytna.Prelude.{
  ℕ, ◌≡◌, true, ◌&&◌, arith, ◌==◌, is_none, is_some, subst, refl, sym, if◌then◌else◌,
}
use baytna.Prelude.Table.{Table, get, get-put, get-put_self, empty, row}
use baytna.Entities.{Order, ChefOrderFulfillment}
use baytna.Delivery.Coupling.{KeepsMissions}
use baytna.Fulfillment.{stage_for, ensure_for_confirmed_order, stored, sync_rows, sync_queue}
use baytna.Session.{Db, Checked, ok, err}
use baytna.Settings.{Settings}

-- The orders of the table's rows that the chef is to see have a fulfillment.
abbrev pub Queued : ℕ → Table Order → Table ChefOrderFulfillment → Type 0
Queued chef_id empty rows = Unit
Queued chef_id (row k o rest) rows =
    (o.chef_id ≡ chef_id → is_some (stage_for o.status) ≡ true → is_some (get k rows) ≡ true)
    × Queued chef_id rest rows

ensure-stored :
    (settings : Settings) (k : ℕ) (o : Order) (db : Db)
    → is_some (stage_for o.status) ≡ true
    → is_some (get k (stored k (ensure_for_confirmed_order settings k o db) db).fulfillments) ≡ true
unfolding ensure_for_confirmed_order
ensure-stored settings k o db h = grind (arith, get-put_self)

-- A row that exists stays.
stored-keeps :
    (settings : Settings) (k j : ℕ) (o : Order) (db : Db)
    → is_some (get j db.fulfillments) ≡ true
    → is_some (get j (stored k (ensure_for_confirmed_order settings k o db) db).fulfillments) ≡ true
unfolding ensure_for_confirmed_order
stored-keeps settings k j o db h = grind (arith, get-put)

sync_rows-keeps :
    (settings : Settings) (chef_id j : ℕ) (t : Table Order) (db : Db)
    → is_some (get j db.fulfillments) ≡ true
    → is_some (get j (sync_rows settings chef_id t db).fulfillments) ≡ true
unfolding sync_rows
sync_rows-keeps settings chef_id j empty db h = h
sync_rows-keeps settings chef_id j (row k o rest) db h =
    let db' = stored k (ensure_for_confirmed_order settings k o db) db in
    ground (
      arith,
      sync_rows-keeps settings chef_id j rest db h,
      sync_rows-keeps settings chef_id j rest db' (stored-keeps settings k j o db h),
    )

sync_rows-Queued :
    (settings : Settings) (chef_id : ℕ) (t : Table Order) (db : Db)
    → Queued chef_id t (sync_rows settings chef_id t db).fulfillments
unfolding sync_rows
sync_rows-Queued settings chef_id empty db = tt
sync_rows-Queued settings chef_id (row k o rest) db =
    let added = stored k (ensure_for_confirmed_order settings k o db) db in
    let next = if o.chef_id == chef_id && is_none (get k db.fulfillments) then added else db in
    (
      (λ mine seen.
          sync_rows-keeps settings chef_id k rest next
            (ground (arith, ensure-stored settings k o db seen))),
      sync_rows-Queued settings chef_id rest next,
    )

stored-orders :
    (k : ℕ) (m : Checked ChefOrderFulfillment) (db : Db) → (stored k m db).orders ≡ db.orders
stored-orders k (ok f) db = refl
stored-orders k (err e) db = refl

sync_rows-orders :
    (settings : Settings) (chef_id : ℕ) (t : Table Order) (db : Db)
    → (sync_rows settings chef_id t db).orders ≡ db.orders
unfolding sync_rows
sync_rows-orders settings chef_id empty db = refl
sync_rows-orders settings chef_id (row k o rest) db =
    let m = ensure_for_confirmed_order settings k o db in
    ground (
      arith,
      sync_rows-orders settings chef_id rest db,
      sync_rows-orders settings chef_id rest (stored k m db),
      stored-orders k m db,
    )

stored-tasks :
    (k : ℕ) (m : Checked ChefOrderFulfillment) (db : Db)
    → ((stored k m db).tasks ≡ db.tasks) × ((stored k m db).next_id ≡ db.next_id)
stored-tasks k (ok f) db = (refl, refl)
stored-tasks k (err e) db = (refl, refl)

sync_rows-tasks :
    (settings : Settings) (chef_id : ℕ) (t : Table Order) (db : Db)
    → ((sync_rows settings chef_id t db).tasks ≡ db.tasks)
      × ((sync_rows settings chef_id t db).next_id ≡ db.next_id)
unfolding sync_rows
sync_rows-tasks settings chef_id empty db = (refl, refl)
sync_rows-tasks settings chef_id (row k o rest) db =
    let m = ensure_for_confirmed_order settings k o db in
    ground (
      arith,
      sync_rows-tasks settings chef_id rest db,
      sync_rows-tasks settings chef_id rest (stored k m db),
      stored-tasks k m db,
    )

pub sync_queue-KeepsMissions :
    (settings : Settings) (chef_id : ℕ) (db : Db)
    → KeepsMissions db (sync_queue settings chef_id db)
unfolding sync_queue
sync_queue-KeepsMissions settings chef_id db = record {
  tasks = (sync_rows-tasks settings chef_id db.orders db).0;
  orders = sync_rows-orders settings chef_id db.orders db;
  next_id = (sync_rows-tasks settings chef_id db.orders db).1;
}

-- Once a chef's queue is synchronised, each of the chef's orders that is confirmed, accepted, in
-- preparation or ready has a fulfillment.
pub sync_queue-Queued :
    (settings : Settings) (chef_id : ℕ) (db : Db)
    → Queued chef_id
        (sync_queue settings chef_id db).orders
        (sync_queue settings chef_id db).fulfillments
unfolding sync_queue
sync_queue-Queued settings chef_id db =
    subst (λ t. Queued chef_id t (sync_rows settings chef_id db.orders db).fulfillments)
      (sym (sync_rows-orders settings chef_id db.orders db))
      (sync_rows-Queued settings chef_id db.orders db)
