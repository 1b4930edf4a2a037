-- ===== src/Specials/Steps.antt =====
-- What a call may make of a request that exists.
use baytna.Prelude.{
  ℕ, ◌≡◌, Bool, true, false, ◌&&◌, ◌||◌, Option, none, some, arith, ◌==◌, String, inl, inr,
  Bool-cases, Option-cases,
}
use baytna.Prelude.Table.{get, put, get-put, get-above}
use baytna.Entities.{SpecialOrderRequest}
use baytna.Entities.Status.{
  ◌is◌, SpecialStatus, SpecialStatus-discrete, order_status, task_status, driver_status,
  stage_status, item_status, hold_status, payment_status, order_type_status, special_status,
  redemption_status,
}
use baytna.Pricing.Discounts.{price}
use baytna.Session.{Db, Checked-cases, ok}
use baytna.Settings.{Settings, Platform}
use baytna.Specials.{
  or_text, customer_request, chef_request, SpecialOrderCreateRequest, new_special_id, new_special,
  create_request, settled_offer, accept_counter_offer, end_order, cancel,
}
use baytna.Specials.Answers.{
  ChefAcceptRequest, quoted_row, chef_accept, ChefCounterOfferRequest, countered_row,
  chef_counter_offer, chef_reject,
}
use baytna.Specials.Schedule.{ensure_schedulable}

-- The negotiation's transitions. Only a payment makes a request scheduled.
abbrev pub may_become : SpecialStatus → SpecialStatus → Bool
may_become SpecialStatus.chef_review SpecialStatus.counter_offer = true
may_become SpecialStatus.chef_review SpecialStatus.awaiting_payment = true
may_become SpecialStatus.chef_review SpecialStatus.rejected = true
may_become SpecialStatus.chef_review SpecialStatus.cancelled = true
may_become SpecialStatus.counter_offer SpecialStatus.awaiting_payment = true
may_become SpecialStatus.counter_offer SpecialStatus.rejected = true
may_become SpecialStatus.counter_offer SpecialStatus.cancelled = true
may_become SpecialStatus.awaiting_payment SpecialStatus.cancelled = true
may_become SpecialStatus.awaiting_payment SpecialStatus.expired = true
may_become _ _ = false

-- The request is still there, of the same customer and chef, and its status is the same or the next.
abbrev pub continues : SpecialOrderRequest → Option SpecialOrderRequest → Bool
continues r none = false
continues r (some s) =
    s.customer_id == r.customer_id
    && s.chef_id == r.chef_id
    && (s.status is r.status || may_become r.status s.status)

-- Every request goes on.
abbrev pub Follows : Db → Db → Type 0
Follows db db' =
    (k : ℕ) (r : SpecialOrderRequest)
    → get k db.specials ≡ some r
    → continues r (get k db'.specials) ≡ true

same-Follows : (db db' : Db) → db'.specials ≡ db.specials → Follows db db'
unfolding SpecialStatus-discrete
same-Follows db db' same k r h = ground (arith, same)

-- One request takes a step.
step-Follows :
    (id : ℕ) (old new : SpecialOrderRequest) (db db' : Db)
    → get id db.specials ≡ some old
    → db'.specials ≡ put id new db.specials
    → continues old (some new) ≡ true
    → Follows db db'
unfolding SpecialStatus-discrete
step-Follows id old new db db' found wrote goes k r h =
    ground (arith, wrote, get-put id k new db.specials)

pub create_request-Follows :
    (platform : Platform) (settings : Settings) (now customer_id : ℕ)
    (q : SpecialOrderCreateRequest) (db db' : Db)
    → create_request platform settings now customer_id q db ≡ ok db'
    → Follows db db'
unfolding create_request SpecialStatus-discrete
create_request-Follows platform settings now customer_id q db db' h k r e =
    elim (Option-cases (get q.dish_id db.catalog.dishes)) [
      | inl missing ↦ absurd (ground arith)
      | inr (dish, known) ↦
          elim (Checked-cases (
            ensure_schedulable dish.chef_id q.requested_service_date q.requested_window_start
              q.requested_window_end none db)) [
                | inl (x, stop) ↦ absurd (ground arith)
                | inr (rule, free) ↦
                    let id = new_special_id db in
                    ground (
                      arith,
                      get-above id db.specials (omega arith),
                      get-put id k (new_special id customer_id dish.chef_id q dish rule)
                          db.specials,
                    )
              ]
    ]

module _ (now id : ℕ) (db db' : Db) where
  pub chef_accept-Follows :
      (settings : Settings) (chef_id : ℕ) (q : ChefAcceptRequest)
      → chef_accept settings now chef_id id q db ≡ ok db'
      → Follows db db'
  unfolding chef_accept chef_request
  chef_accept-Follows settings chef_id q h = elim (Option-cases (get id db.specials)) [
    | inl missing ↦ absurd (ground arith)
    | inr (r, found) ↦ elim (Bool-cases (r.status is SpecialStatus.awaiting_payment)) [
      | inl again ↦ same-Follows db db' (ground arith)
      | inr first ↦
          let lower = or_text q.window_start r.requested_window_start in
          let upper = or_text q.window_end r.requested_window_end in
          elim (Checked-cases
            (ensure_schedulable chef_id r.requested_service_date lower upper (some id) db)) [
              | inl (e, stop) ↦ absurd (ground arith)
              | inr (rule, free) ↦
                  step-Follows id r (quoted_row settings now q rule r) db db' found (ground arith)
                    (ground arith)
            ]
    ]
  ]

  pub chef_counter_offer-Follows :
      (platform : Platform) (settings : Settings) (chef_id : ℕ) (q : ChefCounterOfferRequest)
      → chef_counter_offer platform settings now chef_id id q db ≡ ok db'
      → Follows db db'
  unfolding chef_counter_offer chef_request
  chef_counter_offer-Follows platform settings chef_id q h =
      elim (Option-cases (get id db.specials)) [
        | inl missing ↦ absurd (ground arith)
        | inr (r, found) ↦
            step-Follows id r (countered_row now q r) db db' found (ground arith) (ground arith)
      ]

  pub accept_counter_offer-Follows :
      (settings : Settings) (customer_id : ℕ)
      → accept_counter_offer settings now customer_id id db ≡ ok db'
      → Follows db db'
  unfolding accept_counter_offer customer_request
  accept_counter_offer-Follows settings customer_id h = elim (Option-cases (get id db.specials)) [
    | inl missing ↦ absurd (ground arith)
    | inr (r, found) ↦ elim (Bool-cases (r.status is SpecialStatus.awaiting_payment)) [
      | inl again ↦ same-Follows db db' (ground arith)
      | inr first ↦ elim (Option-cases r.proposed_service_date) [
        | inl none' ↦ absurd (ground arith)
        | inr (date, offered) ↦ elim (Option-cases r.proposed_unit_price_minor) [
          | inl none' ↦ absurd (ground arith)
          | inr (price, priced) ↦
              step-Follows id r (settled_offer settings now date price r) db db' found
                (ground arith) (ground arith)
        ]
      ]
    ]
  ]

  pub chef_reject-Follows :
      (chef_id : ℕ) (reason : String)
      → chef_reject now chef_id id reason db ≡ ok db'
      → Follows db db'
  unfolding chef_reject chef_request
  chef_reject-Follows chef_id reason h = elim (Option-cases (get id db.specials)) [
    | inl missing ↦ absurd (ground arith)
    | inr (r, found) ↦ elim (Bool-cases (r.status is SpecialStatus.rejected)) [
      | inl again ↦ same-Follows db db' (ground arith)
      | inr first ↦
          step-Follows id r
            (record r {
              status = SpecialStatus.rejected;
              rejection_reason = some reason;
              chef_responded_at = some now;
            })
            db db' found (ground arith) (ground arith)
    ]
  ]

  pub cancel-Follows : (customer_id : ℕ) → cancel now customer_id id db ≡ ok db' → Follows db db'
  unfolding cancel customer_request end_order
  cancel-Follows customer_id h = elim (Option-cases (get id db.specials)) [
    | inl missing ↦ absurd (ground arith)
    | inr (r, found) ↦ elim (Bool-cases (r.status is SpecialStatus.cancelled)) [
      | inl again ↦ same-Follows db db' (ground arith)
      | inr first ↦
          step-Follows id r (record r { status = SpecialStatus.cancelled; cancelled_at = some now })
            db db' found (ground arith) (ground arith)
    ]
  ]
