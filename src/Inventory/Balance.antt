-- ===== src/Inventory/Balance.antt =====
-- Stock is neither lost nor sold twice: what is available and what is held make up the total.
use baytna.Prelude.{
  ℕ, ◌+◌, ◌≡◌, inl, inr, Bool, true, false, ◌&&◌, some, List, [], ◌∷◌, arith, ◌==◌, if◌then◌else◌,
  Bool-cases, Option-cases, refl,
}
use baytna.Prelude.Table.{Table, get, get-put}
use baytna.Entities.{DailyMenuItem, InventoryReservation}
use baytna.Entities.Status.{HoldStatus}
use baytna.Inventory.{
  release_row, release_inventory, release_all, reserve_row, reserve_inventory, release_where,
  mark_all, is_expired, is_active_for, is_converted_for, as_expired, as_released, as_converted,
  new_hold,
}
use baytna.Session.{Db}

-- The quantity that a reservation keeps from an item: while it is active, and once it is paid.
abbrev pub holds_stock : HoldStatus → Bool
holds_stock HoldStatus.active = true
holds_stock HoldStatus.converted = true
holds_stock _ = false

abbrev pub held_by : ℕ → InventoryReservation → ℕ
held_by item_id r =
    if r.daily_menu_item_id == item_id && holds_stock r.status then r.quantity else 0

unfoldable pub held : ℕ → List InventoryReservation → ℕ
held item_id [] = 0
held item_id (r ∷ rs) = held_by item_id r + held item_id rs

-- The balance of every item beside a quantity that is held elsewhere.
abbrev pub Balances : Table DailyMenuItem → List InventoryReservation → (ℕ → ℕ) → Type 0
Balances items rs extra =
    (k : ℕ) (i : DailyMenuItem)
    → get k items ≡ some i
    → i.quantity_available + (extra k + held k rs) ≡ i.quantity_total

-- A mark that ends a hold.
pub record Frees (selects : InventoryReservation → Bool)
    (mark : InventoryReservation → InventoryReservation) : Type 0 where
  pub held_before : (r : InventoryReservation) → selects r ≡ true → holds_stock r.status ≡ true
  pub free_after : (r : InventoryReservation) → holds_stock (mark r).status ≡ false

release_one :
    (r : InventoryReservation) (rs : List InventoryReservation) (items : Table DailyMenuItem)
    (extra : ℕ → ℕ)
    → holds_stock r.status ≡ true
    → Balances items (r ∷ rs) extra
    → Balances (release_inventory r.daily_menu_item_id r.quantity items) rs extra
unfolding release_inventory release_row held
release_one r rs items extra on b k i h = elim (Option-cases (get r.daily_menu_item_id items)) [
  | inl missing ↦ ground (arith, b k i)
  | inr (old, found) ↦ ground (
    arith,
    get-put r.daily_menu_item_id k (release_row r.quantity old) items,
    b k i,
    b r.daily_menu_item_id old,
  )
]

-- What one reservation holds may be counted apart from the rest.
regroup :
    (r : InventoryReservation) (rs : List InventoryReservation) (items : Table DailyMenuItem)
    (extra : ℕ → ℕ)
    → Balances items (r ∷ rs) extra
    → Balances items rs (λ k. extra k + held_by k r)
unfolding held
regroup r rs items extra b k i h = omega (arith, b k i h)

module _ {selects : InventoryReservation → Bool}
    {mark : InventoryReservation → InventoryReservation} (f : Frees selects mark) where
  -- Releasing gives back what the reservations held, to the unit: the cap at the total never bites.
  pub release_all-Balances :
      (rs : List InventoryReservation) (items : Table DailyMenuItem) (extra : ℕ → ℕ)
      → Balances items rs extra
      → let stock = release_all selects mark rs items in
        Balances stock.items stock.reservations extra
  unfolding release_all held
  release_all-Balances [] items extra b = b
  release_all-Balances (r ∷ rs) items extra b = elim (Bool-cases (selects r)) [
    | inl chosen ↦ rw chosen (λ k i h. ground (
      arith,
      f.free_after r,
      release_all-Balances rs (release_inventory r.daily_menu_item_id r.quantity items) extra
          (release_one r rs items extra (f.held_before r chosen) b) k i,
    ))
    | inr passed ↦ rw passed (λ k i h. ground (
      arith,
      release_all-Balances rs items (λ k. extra k + held_by k r) (regroup r rs items extra b) k i,
    ))
  ]

-- The reservations of a table hold nothing else.
pub record IsBalanced (db : Db) : Type 0 where
  pub balance :
      (k : ℕ) (i : DailyMenuItem)
      → get k db.items ≡ some i
      → i.quantity_available + held k db.reservations ≡ i.quantity_total

expired-Frees : (now : ℕ) → Frees (is_expired now) (as_expired now)
expired-Frees now = record { held_before = λ r h. ground arith; free_after = λ r. refl }

active-Frees : (order_id now : ℕ) → Frees (is_active_for order_id) (as_released now)
active-Frees order_id now = record { held_before = λ r h. ground arith; free_after = λ r. refl }

converted-Frees : (order_id now : ℕ) → Frees (is_converted_for order_id) (as_released now)
converted-Frees order_id now = record { held_before = λ r h. ground arith; free_after = λ r. refl }

release_where-IsBalanced :
    {selects : InventoryReservation → Bool} {mark : InventoryReservation → InventoryReservation}
    (f : Frees selects mark) (db : Db)
    → IsBalanced db
    → IsBalanced (release_where selects mark db)
release_where-IsBalanced f db b = record {
  balance = λ k i h. omega (
    arith,
    release_all-Balances f db.reservations db.items (λ _. 0)
        (λ j t e. omega (arith, b.balance j t e)) k i h,
  );
}

-- Releasing the expired holds, or an order's active or converted ones, keeps the balance.
pub release-IsBalanced :
    (order_id now : ℕ) (db : Db)
    → IsBalanced db
    → IsBalanced (release_where (is_expired now) (as_expired now) db)
      × IsBalanced (release_where (is_active_for order_id) (as_released now) db)
      × IsBalanced (release_where (is_converted_for order_id) (as_released now) db)
release-IsBalanced order_id now db b = (
  release_where-IsBalanced (expired-Frees now) db b,
  release_where-IsBalanced (active-Frees order_id now) db b,
  release_where-IsBalanced (converted-Frees order_id now) db b,
)

-- A payment turns active holds into converted ones, which hold as much.
pub held-convert :
    (order_id now k : ℕ) (rs : List InventoryReservation)
    → held k (mark_all (is_active_for order_id) (as_converted now) rs) ≡ held k rs
unfolding held mark_all
held-convert order_id now k [] = refl
held-convert order_id now k (r ∷ rs) = ground (arith, held-convert order_id now k rs)

-- Where the stock for a new reservation is taken, the balance is kept: what the new hold counts is what
-- became unavailable.
pub reserve-Balances :
    (order_id item_id quantity expires_at : ℕ) (items items' : Table DailyMenuItem)
    (rs : List InventoryReservation)
    → Balances items rs (λ _. 0)
    → reserve_inventory item_id quantity items ≡ some items'
    → Balances items' (new_hold order_id item_id quantity expires_at ∷ rs) (λ _. 0)
unfolding reserve_inventory held
reserve-Balances order_id item_id quantity expires_at items items' rs b h k i e =
    elim (Option-cases (get item_id items)) [
      | inl missing ↦ absurd (ground arith)
      | inr (old, found) ↦ elim (Option-cases (reserve_row quantity old)) [
        | inl refused ↦ absurd (ground arith)
        | inr (new, taken) ↦ ground (arith, get-put item_id k new items, b k i, b item_id old)
      ]
    ]
