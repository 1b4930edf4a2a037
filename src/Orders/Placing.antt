-- ===== src/Orders/Placing.antt =====
-- What a checkout that succeeds has done, step by step.
use baytna.Prelude.{ℕ, ◌+◌, ◌*◌, ◌≡◌, inl, inr, Option, List, arith}
use baytna.Orders.Checkout.{
  CreateOrderRequest, window_start, window_end, new_order, close_checkout, insert_order,
  with_prices, place_order,
}
use baytna.Orders.Lines.{Opened, Validated, validate_lines, subtotal_of, hold_lines}
use baytna.Pricing.{quote_cart}
use baytna.Pricing.Discounts.{Quote}
use baytna.Pricing.Reserve.{reserve_for_order}
use baytna.Session.{Db, new_id, Checked-cases, ok}
use baytna.Settings.{Settings, Platform, minute}
use baytna.Timing.Promise.{DeliveryPromise, snapshot, promise}

module _ (platform : Platform) (settings : Settings) (now customer_id : ℕ)
    (payload : CreateOrderRequest) (opened : Opened) (event_id : Option ℕ) (db : Db) where
  -- The database when the order's row and address are inserted.
  abbrev pub inserted : List Validated → Quote → Option DeliveryPromise → Db
  inserted validated quote window =
      insert_order (new_id (with_prices validated db))
        (promise window (new_order now settings customer_id payload.cart_id opened quote))
        opened.address (with_prices validated db)

  -- The results of the steps of `place_order`.
  pub record Placed (db' : Db) : Type 0 where
    pub validated : List Validated
    pub quote : Quote
    pub window : Option DeliveryPromise
    pub reserved : Db
    pub held_db : Db
    pub validates : validate_lines now opened opened.lines db ≡ ok validated
    pub quotes :
        quote_cart platform.texts settings now customer_id payload.cart_id payload.coupon_code
          payload.loyalty_points_to_redeem
          (with_prices validated db)
        ≡ ok quote
    pub agrees : quote.subtotal_minor ≡ subtotal_of validated
    pub reserves :
        reserve_for_order
          (new_id (with_prices validated db))
          customer_id
          quote
          (inserted validated quote window)
        ≡ ok reserved
    pub holds_lines :
        hold_lines
          (new_id (with_prices validated db))
          (now + settings.inventory_hold_ttl_minutes * minute)
          validated
          reserved
        ≡ ok held_db
    pub closes :
        db'
        ≡ close_checkout now customer_id
            (new_id (with_prices validated db))
            payload.cart_id
            event_id
            opened.cart
            held_db

  pub place_order-Placed :
      (db' : Db)
      → place_order platform settings now customer_id payload opened event_id db ≡ ok db'
      → Placed db'
  unfolding place_order
  place_order-Placed db' h = elim (Checked-cases (validate_lines now opened opened.lines db)) [
    | inl (e, stop) ↦ absurd (ground arith)
    | inr (validated, one) ↦
        let db1 = with_prices validated db in
        elim (Checked-cases (
          quote_cart platform.texts settings now customer_id payload.cart_id payload.coupon_code
            payload.loyalty_points_to_redeem db1)) [
              | inl (e, stop) ↦ absurd (ground arith)
              | inr (quote, two) ↦
                  elim (Checked-cases (
                    snapshot platform settings opened.service_date (window_start validated)
                      (window_end validated))) [
                        | inl (e, stop) ↦ absurd (ground arith)
                        | inr (window, three) ↦
                            elim (Checked-cases (
                              reserve_for_order (new_id db1) customer_id quote
                                (inserted validated quote window))) [
                                  | inl (e, stop) ↦ absurd (ground arith)
                                  | inr (reserved, four) ↦
                                      elim (Checked-cases (
                                        hold_lines (new_id db1)
                                          (now + settings.inventory_hold_ttl_minutes * minute)
                                          validated reserved)) [
                                            | inl (e, stop) ↦ absurd (ground arith)
                                            | inr (held_db, five) ↦ record {
                                              validated = validated;
                                              quote = quote;
                                              window = window;
                                              reserved = reserved;
                                              held_db = held_db;
                                              validates = one;
                                              quotes = two;
                                              agrees = ground arith;
                                              reserves = four;
                                              holds_lines = five;
                                              closes = ground arith;
                                            }
                                          ]
                                ]
                      ]
            ]
  ]
