-- ===== src/Orders/Contents.antt =====
-- What an order contains, and what it costs.
use baytna.Prelude.{
  subst, ℕ, ◌+◌, ◌≡◌, refl, inl, inr, ◌&&◌, List, [], ◌∷◌, arith, ◌==◌, if◌then◌else◌,
}
use baytna.Entities.{InventoryReservation}
use baytna.Entities.Market.{CartItem, OrderItem}
use baytna.Entities.Status.{
  ◌is◌, HoldStatus, HoldStatus-discrete, order_status, task_status, driver_status, stage_status,
  item_status, hold_status, payment_status, order_type_status, special_status, redemption_status,
}
use baytna.Orders.Cart.{validated_menu_context, validate_requested_quantity}
use baytna.Orders.Lines.{
  Opened, Validated, validate_line, validate_lines, line_total, subtotal_of, hold_line, hold_lines,
}
use baytna.Session.{Db, Checked-cases, ok}

-- The total of an order's items.
unfoldable pub billed : ℕ → List OrderItem → ℕ
billed order_id [] = 0
billed order_id (i ∷ is') =
    (if i.order_id == order_id then i.line_total_minor else 0) + billed order_id is'

-- The quantity of an item that an order holds.
abbrev holding : ℕ → ℕ → InventoryReservation → ℕ
holding order_id item_id r =
    if r.order_id == order_id && r.daily_menu_item_id == item_id && r.status is HoldStatus.active
    then r.quantity
    else 0

unfoldable pub held_for : ℕ → ℕ → List InventoryReservation → ℕ
held_for order_id item_id [] = 0
held_for order_id item_id (r ∷ rs) = holding order_id item_id r + held_for order_id item_id rs

-- The quantity of an item that the lines ask for.
unfoldable pub asked : ℕ → List CartItem → ℕ
asked item_id [] = 0
asked item_id (c ∷ cs) =
    (if c.daily_menu_item_id == item_id then c.quantity else 0) + asked item_id cs

unfoldable pub asked_by : ℕ → List Validated → ℕ
asked_by item_id [] = 0
asked_by item_id (v ∷ vs) =
    (if v.line.daily_menu_item_id == item_id then v.line.quantity else 0) + asked_by item_id vs

hold_line-holds :
    (order_id expires item_id : ℕ) (v : Validated) (db db' : Db)
    → hold_line order_id expires v db ≡ ok db'
    → (billed order_id db'.order_items ≡ billed order_id db.order_items + line_total v)
      × (held_for order_id item_id db'.reservations
          ≡ held_for order_id item_id db.reservations
            + (if v.line.daily_menu_item_id == item_id then v.line.quantity else 0))
unfolding hold_line billed held_for HoldStatus-discrete
hold_line-holds order_id expires item_id v db db' h = (ground arith, ground arith)

pub hold_lines-holds :
    (order_id expires item_id : ℕ) (vs : List Validated) (db db' : Db)
    → hold_lines order_id expires vs db ≡ ok db'
    → (billed order_id db'.order_items ≡ billed order_id db.order_items + subtotal_of vs)
      × (held_for order_id item_id db'.reservations
          ≡ held_for order_id item_id db.reservations + asked_by item_id vs)
unfolding hold_lines subtotal_of asked_by
hold_lines-holds order_id expires item_id [] db db' h = (ground arith, ground arith)
hold_lines-holds order_id expires item_id (v ∷ vs) db db' h =
    elim (Checked-cases (hold_line order_id expires v db)) [
      | inl (e, stop) ↦ absurd (ground arith)
      | inr (db1, one) ↦
          let first = hold_line-holds order_id expires item_id v db db1 one in
          let rest = hold_lines-holds order_id expires item_id vs db1 db' (ground arith) in
          (omega (arith, first.0, rest.0), omega (arith, first.1, rest.1))
    ]

validate_line-line :
    (now : ℕ) (opened : Opened) (c : CartItem) (db : Db) (v : Validated)
    → validate_line now opened c db ≡ ok v
    → v.line ≡ c
unfolding validate_line
validate_line-line now opened c db v h =
    elim (Checked-cases (validated_menu_context now c.daily_menu_item_id db)) [
      | inl (e, stop) ↦ absurd (ground arith)
      | inr (found, one) ↦
          elim (Checked-cases (validate_requested_quantity found.item c.quantity)) [
            | inl (e, stop) ↦ absurd (ground arith)
            | inr (u, two) ↦ ground arith
          ]
    ]

pub validate_lines-asked :
    (now : ℕ) (opened : Opened) (item_id : ℕ) (cs : List CartItem) (db : Db) (vs : List Validated)
    → validate_lines now opened cs db ≡ ok vs
    → asked_by item_id vs ≡ asked item_id cs
unfolding validate_lines asked asked_by
validate_lines-asked now opened item_id [] db vs h =
    subst (λ l. asked_by item_id l ≡ 0) {x = []} {y = vs} (ground arith) refl
validate_lines-asked now opened item_id (c ∷ cs) db vs h =
    elim (Checked-cases (validate_line now opened c db)) [
      | inl (e, stop) ↦ absurd (ground arith)
      | inr (v, one) ↦ elim (Checked-cases (validate_lines now opened cs db)) [
        | inl (e, stop) ↦ absurd (ground arith)
        | inr (ws, two) ↦
            subst (λ l. asked_by item_id l ≡ asked item_id (c ∷ cs)) {x = v ∷ ws} {y = vs}
              (ground arith)
              (ground (
                arith,
                validate_line-line now opened c db v one,
                validate_lines-asked now opened item_id cs db ws two,
              ))
      ]
    ]
