-- ===== src/Orders/Cart/Upkeep.antt =====
-- The operations on carts write to nothing else.
use baytna.Prelude.{ℕ, ◌≡◌, refl, inl, inr, arith, Option-cases}
use baytna.Entities.Market.{Cart}
use baytna.Orders.{release_expired_holds}
use baytna.Orders.Cart.{
  active_cart, new_cart, create_cart, validated_menu_context, get_cart, put_line, add_to_cart,
  add_cart_item, own_line, change_line, update_cart_item, remove_cart_item, clear_cart, ensure_cart,
}
use baytna.Orders.Frame.{new_id-above}
use baytna.Orders.Upkeep.{Upkeep, Upkeep-trans, aside-Upkeep, release_expired_holds-Upkeep}
use baytna.Session.{Db, new_id, Checked, Checked-cases, ended, ok, err}

create_cart-Upkeep : (now customer_id : ℕ) (db : Db) → Upkeep db (create_cart now customer_id db)
create_cart-Upkeep now customer_id db =
    aside-Upkeep (ground arith) (ground (arith, new_id-above db)) (ground arith) (ground arith)
      (ground arith) (ground arith)

ensure_cart-Upkeep : (now customer_id : ℕ) (db : Db) → Upkeep db (ensure_cart now customer_id db)
unfolding ensure_cart
ensure_cart-Upkeep now customer_id db =
    aside-Upkeep (ground arith) (ground (arith, new_id-above db)) (ground arith) (ground arith)
      (ground arith) (ground arith)

pub get_cart-Upkeep : (now customer_id : ℕ) (db : Db) → Upkeep db (get_cart now customer_id db)
unfolding get_cart
get_cart-Upkeep now customer_id db =
    Upkeep-trans (release_expired_holds-Upkeep now db)
      (ensure_cart-Upkeep now customer_id (release_expired_holds now db))

put_line-Upkeep :
    (now customer_id item_id quantity cart_id : ℕ) (cart : Cart) (db db' : Db)
    → put_line now customer_id item_id quantity cart_id cart db ≡ ok db'
    → Upkeep db db'
unfolding put_line
put_line-Upkeep now customer_id item_id quantity cart_id cart db db' h =
    elim (Checked-cases (validated_menu_context now item_id db)) [
      | inl (e, stop) ↦ absurd (ground arith)
      | inr (found, one) ↦
          aside-Upkeep (ground arith) (ground (arith, new_id-above db)) (ground arith)
            (ground arith) (ground arith) (ground arith)
    ]

add_to_cart-Upkeep :
    (now customer_id item_id quantity : ℕ) (db db' : Db)
    → add_to_cart now customer_id item_id quantity db ≡ ok db'
    → Upkeep db db'
unfolding add_to_cart
add_to_cart-Upkeep now customer_id item_id quantity db db' h =
    elim (Option-cases (active_cart customer_id db.carts)) [
      | inl missing ↦ Upkeep-trans (create_cart-Upkeep now customer_id db) (
          put_line-Upkeep now customer_id item_id quantity (new_id db) (new_cart now customer_id)
            (create_cart now customer_id db) db' (ground arith))
      | inr (c, found) ↦
          put_line-Upkeep now customer_id item_id quantity c.0 c.1 db db' (ground arith)
    ]

change_line-Upkeep :
    (now customer_id line_id quantity : ℕ) (db db' : Db)
    → change_line now customer_id line_id quantity db ≡ ok db'
    → Upkeep db db'
unfolding change_line
change_line-Upkeep now customer_id line_id quantity db db' h =
    elim (Checked-cases (own_line customer_id line_id db)) [
      | inl (e, stop) ↦ absurd (ground arith)
      | inr (own, one) ↦
          elim (Checked-cases (validated_menu_context now own.0.daily_menu_item_id db)) [
            | inl (e, stop) ↦ absurd (ground arith)
            | inr (found, two) ↦
                aside-Upkeep (ground arith) (ground arith) (ground arith) (ground arith)
                  (ground arith) (ground arith)
          ]
    ]

-- The rest of a request, after the release of holds.
released-Upkeep :
    (now : ℕ) (db : Db) (m : Checked Db)
    → ((db' : Db) → m ≡ ok db' → Upkeep (release_expired_holds now db) db')
    → Upkeep db (ended (release_expired_holds now db) m).db
released-Upkeep now db (ok db') step =
    Upkeep-trans (release_expired_holds-Upkeep now db) (step db' refl)
released-Upkeep now db (err e) step = release_expired_holds-Upkeep now db

pub add_cart_item-Upkeep :
    (now customer_id item_id quantity : ℕ) (db : Db)
    → Upkeep db (add_cart_item now customer_id item_id quantity db).db
unfolding add_cart_item
add_cart_item-Upkeep now customer_id item_id quantity db =
    let db0 = release_expired_holds now db in
    released-Upkeep now db (add_to_cart now customer_id item_id quantity db0)
      (λ db' h. add_to_cart-Upkeep now customer_id item_id quantity db0 db' h)

pub update_cart_item-Upkeep :
    (now customer_id line_id quantity : ℕ) (db : Db)
    → Upkeep db (update_cart_item now customer_id line_id quantity db).db
unfolding update_cart_item
update_cart_item-Upkeep now customer_id line_id quantity db =
    let db0 = release_expired_holds now db in
    released-Upkeep now db (change_line now customer_id line_id quantity db0)
      (λ db' h. change_line-Upkeep now customer_id line_id quantity db0 db' h)

pub remove_cart_item-Upkeep :
    (now customer_id line_id : ℕ) (db db' : Db)
    → remove_cart_item now customer_id line_id db ≡ ok db'
    → Upkeep db db'
unfolding remove_cart_item
remove_cart_item-Upkeep now customer_id line_id db db' h =
    elim (Checked-cases (own_line customer_id line_id db)) [
      | inl (e, stop) ↦ absurd (ground arith)
      | inr (own, one) ↦
          aside-Upkeep (ground arith) (ground arith) (ground arith) (ground arith) (ground arith)
            (ground arith)
    ]

pub clear_cart-Upkeep : (now customer_id : ℕ) (db : Db) → Upkeep db (clear_cart now customer_id db)
unfolding clear_cart
clear_cart-Upkeep now customer_id db =
    aside-Upkeep (ground arith) (ground (arith, new_id-above db)) (ground arith) (ground arith)
      (ground arith) (ground arith)
