-- ===== src/Orders/Frame.antt =====
-- What the steps of a checkout leave alone.
use baytna.Prelude.{subst, ℕ, ◌≡◌, inl, inr, none, List, [], ◌∷◌, arith, Option-cases, ◌≤◌}
use baytna.Prelude.Table.{get, get-above}
use baytna.Benefits.Accounts.{KeepsBenefits}
use baytna.Inventory.{reserve_inventory}
use baytna.Inventory.Balance.{IsBalanced, reserve-Balances}
use baytna.Orders.Holds.{KeepsStock}
use baytna.Orders.Lines.{Validated, hold_line, hold_lines}
use baytna.Pricing.Discounts.{Quote}
use baytna.Pricing.Reserve.{
  reserve_coupon, reserve_points, reserve_quoted_coupon, note_plan, reserve_quoted_points,
  reserve_for_order,
}
use baytna.Session.{Db, new_id, Checked-cases, ok}

-- An operation that writes to no order, address, mission, payment or cart.
pub record KeepsOrders (db db' : Db) : Type 0 where
  pub orders : db'.orders ≡ db.orders
  pub addresses : db'.order_addresses ≡ db.order_addresses
  pub tasks : db'.tasks ≡ db.tasks
  pub ids : db'.next_id ≡ db.next_id
  pub payments : db'.payments ≡ db.payments
  pub carts : db'.carts ≡ db.carts

abbrev pub Keeps : Db → Db → Type 0
Keeps db db' = KeepsOrders db db' × KeepsStock db db' × (db'.order_items ≡ db.order_items)

Keeps-trans : {a b c : Db} → Keeps a b → Keeps b c → Keeps a c
Keeps-trans {a} {b} {c} k l =
    let x = k.0 in let y = k.1 in let u = l.0 in let v = l.1 in ground (arith, k.2, l.2)

reserve_quoted_coupon-Keeps :
    (order_id customer_id : ℕ) (q : Quote) (db db' : Db)
    → reserve_quoted_coupon order_id customer_id q db ≡ ok db'
    → Keeps db db'
unfolding reserve_quoted_coupon reserve_coupon
reserve_quoted_coupon-Keeps order_id customer_id q db db' h = ground arith

reserve_quoted_points-Keeps :
    (order_id customer_id : ℕ) (q : Quote) (db db' : Db)
    → reserve_quoted_points order_id customer_id q db ≡ ok db'
    → Keeps db db'
unfolding reserve_quoted_points reserve_points
reserve_quoted_points-Keeps order_id customer_id q db db' h = ground arith

note_plan-Keeps : (order_id : ℕ) (q : Quote) (db : Db) → Keeps db (note_plan order_id q db)
unfolding note_plan
note_plan-Keeps order_id q db = ground arith

-- Reserving benefits.
pub reserve_for_order-Keeps :
    (order_id customer_id : ℕ) (q : Quote) (db db' : Db)
    → reserve_for_order order_id customer_id q db ≡ ok db'
    → Keeps db db'
unfolding reserve_for_order
reserve_for_order-Keeps order_id customer_id q db db' h =
    elim (Checked-cases (reserve_quoted_coupon order_id customer_id q db)) [
      | inl (e, stop) ↦ absurd (ground arith)
      | inr (db1, one) ↦
          elim (Checked-cases
            (reserve_quoted_points order_id customer_id q (note_plan order_id q db1))) [
              | inl (e, stop) ↦ absurd (ground arith)
              | inr (db2, two) ↦
                  let noted = note_plan order_id q db1 in
                  Keeps-trans {b = db2}
                    (Keeps-trans {b = noted}
                      (Keeps-trans {b = db1}
                        (reserve_quoted_coupon-Keeps order_id customer_id q db db1 one)
                        (note_plan-Keeps order_id q db1))
                      (reserve_quoted_points-Keeps order_id customer_id q noted db2 two))
                    (ground arith)
            ]
    ]

hold_line-keeps :
    (order_id expires : ℕ) (v : Validated) (db db' : Db)
    → hold_line order_id expires v db ≡ ok db'
    → KeepsOrders db db' × KeepsBenefits db db'
unfolding hold_line
hold_line-keeps order_id expires v db db' h = ground arith

-- Taking the stock.
pub hold_lines-keeps :
    (order_id expires : ℕ) (vs : List Validated) (db db' : Db)
    → hold_lines order_id expires vs db ≡ ok db'
    → KeepsOrders db db' × KeepsBenefits db db'
unfolding hold_lines
hold_lines-keeps order_id expires [] db db' h = ground arith
hold_lines-keeps order_id expires (v ∷ vs) db db' h =
    elim (Checked-cases (hold_line order_id expires v db)) [
      | inl (e, stop) ↦ absurd (ground arith)
      | inr (db1, one) ↦ ground (
        arith,
        hold_line-keeps order_id expires v db db1 one,
        hold_lines-keeps order_id expires vs db1 db' (ground arith),
      )
    ]

hold_line-IsBalanced :
    (order_id expires : ℕ) (v : Validated) (db db' : Db)
    → IsBalanced db
    → hold_line order_id expires v db ≡ ok db'
    → IsBalanced db'
unfolding hold_line
hold_line-IsBalanced order_id expires v db db' b h =
    elim (Option-cases (reserve_inventory v.line.daily_menu_item_id v.line.quantity db.items)) [
      | inl gone ↦ absurd (ground arith)
      | inr (items', taken) ↦ record {
        balance = λ k i e. ground (
          arith,
          reserve-Balances order_id v.line.daily_menu_item_id v.line.quantity expires db.items
              items' db.reservations (λ j t f. omega (arith, b.balance j t f)) taken k i,
        );
      }
    ]

-- What is taken from the stock is held.
pub hold_lines-IsBalanced :
    (order_id expires : ℕ) (vs : List Validated) (db db' : Db)
    → IsBalanced db
    → hold_lines order_id expires vs db ≡ ok db'
    → IsBalanced db'
unfolding hold_lines
hold_lines-IsBalanced order_id expires [] db db' b h = subst IsBalanced {x = db} (ground arith) b
hold_lines-IsBalanced order_id expires (v ∷ vs) db db' b h =
    elim (Checked-cases (hold_line order_id expires v db)) [
      | inl (e, stop) ↦ absurd (ground arith)
      | inr (db1, one) ↦
          hold_lines-IsBalanced order_id expires vs db1 db'
            (hold_line-IsBalanced order_id expires v db db1 b one) (ground arith)
    ]

-- An identifier that is not in use.
pub new_id-IsUnused :
    (db : Db)
    → (get (new_id db) db.orders ≡ none)
      × (get (new_id db) db.order_addresses ≡ none)
      × (get (new_id db) db.coupon_redemptions ≡ none)
      × (get (new_id db) db.loyalty_redemptions ≡ none)
unfolding new_id
new_id-IsUnused db = (
  get-above (new_id db) db.orders (omega arith),
  get-above (new_id db) db.order_addresses (omega arith),
  get-above (new_id db) db.coupon_redemptions (omega arith),
  get-above (new_id db) db.loyalty_redemptions (omega arith),
)

pub new_id-above : (db : Db) → db.next_id ≤ new_id db
unfolding new_id
new_id-above db = omega arith
