-- ===== src/Specials/Staffing.antt =====
-- Every step of a negotiation keeps the chefs' days within their capacity.
use baytna.Prelude.{
  subst, ℕ, String, ◌≡◌, refl, inl, inr, none, some, arith, Bool-cases, Option-cases,
}
use baytna.Prelude.Table.{get, put, get-above, tally-put, Keyed, Keyed-put}
use baytna.Entities.Status.{
  ◌is◌, SpecialStatus, SpecialStatus-discrete, order_status, task_status, driver_status,
  stage_status, item_status, hold_status, payment_status, order_type_status, special_status,
  redemption_status,
}
use baytna.Pricing.Discounts.{price}
use baytna.Session.{Db, Checked-cases, ok}
use baytna.Settings.{Settings, Platform}
use baytna.Specials.{
  or_text, customer_request, chef_request, SpecialOrderCreateRequest, new_special_id, new_special,
  create_request, settled_offer, accept_counter_offer, end_order, cancel,
}
use baytna.Specials.Answers.{
  ChefAcceptRequest, quoted_row, chef_accept, ChefCounterOfferRequest, countered_row,
  chef_counter_offer, chef_reject,
}
use baytna.Specials.Capacity.{
  IsStaffed, same-IsStaffed, lighter-IsStaffed, fitting-IsStaffed, ensure_schedulable-room,
}
use baytna.Specials.Schedule.{capacity_weight, capacity_used, ensure_schedulable}

module _ (now : ℕ) (db db' : Db) (g : IsStaffed db) where
  -- A new request is for a day that has room for it.
  pub create_request-IsStaffed :
      (platform : Platform) (settings : Settings) (customer_id : ℕ) (q : SpecialOrderCreateRequest)
      → create_request platform settings now customer_id q db ≡ ok db'
      → IsStaffed db'
  unfolding create_request capacity_used
  create_request-IsStaffed platform settings customer_id q h =
      elim (Option-cases (get q.dish_id db.catalog.dishes)) [
        | inl missing ↦ absurd (ground arith)
        | inr (dish, known) ↦
            elim (Checked-cases (
              ensure_schedulable dish.chef_id q.requested_service_date q.requested_window_start
                q.requested_window_end none db)) [
                  | inl (e, stop) ↦ absurd (ground arith)
                  | inr (rule, free) ↦
                      let id = new_special_id db in
                      let new = new_special id customer_id dish.chef_id q dish rule in
                      let unused = get-above id db.specials (omega arith) in
                      let room =
                        ensure_schedulable-room dish.chef_id q.requested_service_date
                          q.requested_window_start q.requested_window_end none db rule free in
                      record {
                        keyed =
                            subst (Keyed (λ r. r.id)) {x = put id new db.specials} (ground arith)
                              (Keyed-put (λ r. r.id) id new db.specials refl g.keyed);
                        within = λ c d. ground (
                          arith,
                          unused,
                          tally-put (capacity_weight c d none) id new db.specials,
                          g.within c d,
                          room,
                        );
                      }
                ]
      ]

  module _ (id : ℕ) where
    pub chef_accept-IsStaffed :
        (settings : Settings) (chef_id : ℕ) (q : ChefAcceptRequest)
        → chef_accept settings now chef_id id q db ≡ ok db'
        → IsStaffed db'
    unfolding chef_accept chef_request
    chef_accept-IsStaffed settings chef_id q h = elim (Option-cases (get id db.specials)) [
      | inl missing ↦ absurd (ground arith)
      | inr (r, found) ↦ elim (Bool-cases (r.status is SpecialStatus.awaiting_payment)) [
        | inl again ↦ same-IsStaffed {db = db} (ground arith) (ground arith) g
        | inr first ↦
            let lower = or_text q.window_start r.requested_window_start in
            let upper = or_text q.window_end r.requested_window_end in
            elim (Checked-cases
              (ensure_schedulable chef_id r.requested_service_date lower upper (some id) db)) [
                | inl (e, stop) ↦ absurd (ground arith)
                | inr (rule, free) ↦
                    fitting-IsStaffed id r (quoted_row settings now q rule r) db db' g found refl
                      (ground arith) (ground arith) chef_id r.requested_service_date (ground arith)
                      refl
                      (ensure_schedulable-room chef_id r.requested_service_date lower upper
                        (some id) db rule free)
              ]
      ]
    ]

    pub chef_counter_offer-IsStaffed :
        (platform : Platform) (settings : Settings) (chef_id : ℕ) (q : ChefCounterOfferRequest)
        → chef_counter_offer platform settings now chef_id id q db ≡ ok db'
        → IsStaffed db'
    unfolding chef_counter_offer chef_request SpecialStatus-discrete
    chef_counter_offer-IsStaffed platform settings chef_id q h =
        elim (Option-cases (get id db.specials)) [
          | inl missing ↦ absurd (ground arith)
          | inr (r, found) ↦
              elim (Checked-cases (
                ensure_schedulable chef_id q.proposed_service_date q.proposed_window_start
                  q.proposed_window_end (some id) db)) [
                    | inl (e, stop) ↦ absurd (ground arith)
                    | inr (rule, free) ↦
                        let new = countered_row now q r in
                        elim (Option-cases r.final_service_date) [
                          | inl open' ↦
                              fitting-IsStaffed id r new db db' g found refl (ground arith)
                                (ground arith) chef_id q.proposed_service_date (ground arith)
                                (ground arith)
                                (ensure_schedulable-room chef_id q.proposed_service_date
                                  q.proposed_window_start q.proposed_window_end (some id) db rule
                                  free)
                          | inr (f, set) ↦
                              lighter-IsStaffed id r new db db' g found refl (ground arith)
                                (ground arith) (λ c d. ground arith)
                        ]
                  ]
        ]

    pub accept_counter_offer-IsStaffed :
        (settings : Settings) (customer_id : ℕ)
        → accept_counter_offer settings now customer_id id db ≡ ok db'
        → IsStaffed db'
    unfolding accept_counter_offer customer_request
    accept_counter_offer-IsStaffed settings customer_id h =
        elim (Option-cases (get id db.specials)) [
          | inl missing ↦ absurd (ground arith)
          | inr (r, found) ↦ elim (Bool-cases (r.status is SpecialStatus.awaiting_payment)) [
            | inl again ↦ same-IsStaffed {db = db} (ground arith) (ground arith) g
            | inr first ↦ elim (Option-cases r.proposed_service_date) [
              | inl none' ↦ absurd (ground arith)
              | inr (date, offered) ↦ elim (Option-cases r.proposed_unit_price_minor) [
                | inl none' ↦ absurd (ground arith)
                | inr (price, priced) ↦
                    elim (Checked-cases (
                      ensure_schedulable r.chef_id date r.proposed_window_start
                        r.proposed_window_end (some id) db)) [
                          | inl (e, stop) ↦ absurd (ground arith)
                          | inr (rule, free) ↦
                              fitting-IsStaffed id r (settled_offer settings now date price r) db
                                db' g found refl (ground arith) (ground arith) r.chef_id date refl
                                refl
                                (ensure_schedulable-room r.chef_id date r.proposed_window_start
                                  r.proposed_window_end (some id) db rule free)
                        ]
              ]
            ]
          ]
        ]

    pub chef_reject-IsStaffed :
        (chef_id : ℕ) (reason : String)
        → chef_reject now chef_id id reason db ≡ ok db'
        → IsStaffed db'
    unfolding chef_reject chef_request
    chef_reject-IsStaffed chef_id reason h = elim (Option-cases (get id db.specials)) [
      | inl missing ↦ absurd (ground arith)
      | inr (r, found) ↦ elim (Bool-cases (r.status is SpecialStatus.rejected)) [
        | inl again ↦ same-IsStaffed {db = db} (ground arith) (ground arith) g
        | inr first ↦
            lighter-IsStaffed id r
              (record r {
                status = SpecialStatus.rejected;
                rejection_reason = some reason;
                chef_responded_at = some now;
              })
              db db' g found refl (ground arith) (ground arith) (λ c d. ground arith)
      ]
    ]

    pub cancel-IsStaffed : (customer_id : ℕ) → cancel now customer_id id db ≡ ok db' → IsStaffed db'
    unfolding cancel customer_request end_order
    cancel-IsStaffed customer_id h = elim (Option-cases (get id db.specials)) [
      | inl missing ↦ absurd (ground arith)
      | inr (r, found) ↦ elim (Bool-cases (r.status is SpecialStatus.cancelled)) [
        | inl again ↦ same-IsStaffed {db = db} (ground arith) (ground arith) g
        | inr first ↦
            lighter-IsStaffed id r
              (record r { status = SpecialStatus.cancelled; cancelled_at = some now }) db db' g
              found refl (ground arith) (ground arith) (λ c d. ground arith)
      ]
    ]
