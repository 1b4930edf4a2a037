-- ===== src/Inventory.antt =====
-- The stock statements of `backend/app/modules/orders/repository.py`, and the loops that release
-- reservations.
pub mod Balance
use baytna.Prelude.{
  ℕ, ◌+◌, ◌-◌, Bool, ◌&&◌, Option, none, some, List, [], ◌∷◌, ltb, leb, ◌==◌, if◌then◌else◌,
}
use baytna.Prelude.Table.{Table, get, put}
use baytna.Entities.{DailyMenuItem, InventoryReservation}
use baytna.Entities.Status.{
  ◌is◌, ItemStatus, HoldStatus, order_status, task_status, driver_status, stage_status, item_status,
  hold_status, payment_status, order_type_status, special_status, redemption_status,
}
use baytna.Session.{Db}

-- `UPDATE daily_menu_items ... WHERE status = 'available' AND quantity_available >= quantity`, and
-- the mark on an item that is then empty; `none` where no row matches.
unfoldable pub reserve_row : ℕ → DailyMenuItem → Option DailyMenuItem
reserve_row quantity item =
    let left = item.quantity_available - quantity in
    if item.status is ItemStatus.available && leb quantity item.quantity_available
    then some (record item {
      quantity_available = left;
      status = (if left == 0 then ItemStatus.sold_out else item.status);
    })
    else none

-- `reserve_inventory`; `none` stands for False.
unfoldable pub reserve_inventory : ℕ → ℕ → Table DailyMenuItem → Option (Table DailyMenuItem)
unfolding reserve_row
reserve_inventory item_id quantity items = elim (get item_id items) [
  | none ↦ none
  | some item ↦ elim (reserve_row quantity item) [
    | none ↦ none
    | some item' ↦ some (put item_id item' items)
  ]
]

abbrev pub lesser : ℕ → ℕ → ℕ
lesser a b = if leb a b then a else b

unfoldable pub release_row : ℕ → DailyMenuItem → DailyMenuItem
release_row quantity item =
    let back = lesser item.quantity_total (item.quantity_available + quantity) in
    record item {
      quantity_available = back;
      status =
          (if item.status is ItemStatus.sold_out && ltb 0 back
            then ItemStatus.available
            else item.status);
    }

-- `release_inventory`
unfoldable pub release_inventory : ℕ → ℕ → Table DailyMenuItem → Table DailyMenuItem
release_inventory item_id quantity items = elim (get item_id items) [
  | none ↦ items
  | some item ↦ put item_id (release_row quantity item) items
]

pub record Stock : Type 0 where
  pub items : Table DailyMenuItem
  pub reservations : List InventoryReservation

-- `for reservation in ...: release_inventory(...); reservation.status = ...` over the reservations
-- that the query selects.
unfoldable pub release_all :
    (InventoryReservation → Bool)
    → (InventoryReservation → InventoryReservation)
    → List InventoryReservation
    → Table DailyMenuItem
    → Stock
release_all selects mark [] items = record { items = items; reservations = [] }
release_all selects mark (r ∷ rs) items =
    let items' =
      if selects r then release_inventory r.daily_menu_item_id r.quantity items else items in
    let rest = release_all selects mark rs items' in
    record {
      items = rest.items;
      reservations = (if selects r then mark r else r) ∷ rest.reservations;
    }

abbrev pub release_where :
    (InventoryReservation → Bool) → (InventoryReservation → InventoryReservation) → Db → Db
release_where selects mark db =
    let stock = release_all selects mark db.reservations db.items in
    record db { items = stock.items; reservations = stock.reservations }

-- `reservation.status = "converted"; reservation.converted_at = now`, for a query's reservations.
unfoldable pub mark_all :
    (InventoryReservation → Bool)
    → (InventoryReservation → InventoryReservation)
    → List InventoryReservation
    → List InventoryReservation
mark_all selects mark [] = []
mark_all selects mark (r ∷ rs) = (if selects r then mark r else r) ∷ mark_all selects mark rs

abbrev pub is_expired : ℕ → InventoryReservation → Bool
is_expired now r = r.status is HoldStatus.active && leb r.expires_at now

abbrev pub is_active_for : ℕ → InventoryReservation → Bool
is_active_for order_id r = r.order_id == order_id && r.status is HoldStatus.active

abbrev pub is_converted_for : ℕ → InventoryReservation → Bool
is_converted_for order_id r = r.order_id == order_id && r.status is HoldStatus.converted

abbrev pub as_expired : ℕ → InventoryReservation → InventoryReservation
as_expired now r = record r { status = HoldStatus.expired; released_at = some now }

abbrev pub as_released : ℕ → InventoryReservation → InventoryReservation
as_released now r = record r { status = HoldStatus.released; released_at = some now }

abbrev pub as_converted : ℕ → InventoryReservation → InventoryReservation
as_converted now r = record r { status = HoldStatus.converted; converted_at = some now }

-- `InventoryReservationEntity(status="active", expires_at=hold_expires)`
abbrev pub new_hold : ℕ → ℕ → ℕ → ℕ → InventoryReservation
new_hold order_id item_id quantity expires_at = record {
  order_id = order_id;
  daily_menu_item_id = item_id;
  quantity = quantity;
  status = HoldStatus.active;
  expires_at = expires_at;
  released_at = none;
  converted_at = none;
}
