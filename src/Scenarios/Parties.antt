-- ===== src/Scenarios/Parties.antt =====
-- The negotiation of a special order at the shop.
use baytna.Prelude.{◌≡◌, refl, none, List, [], ◌∷◌, arith}
use baytna.Prelude.Table.{get, put, above, tally}
use baytna.Entities.Status.{SpecialStatus-discrete}
use baytna.Scenarios.{shop, configured, small_platform}
use baytna.Session.{Db, settle, ok}
use baytna.Specials.{SpecialOrderCreateRequest, create_request, customer_request, end_order, cancel}
use baytna.Specials.Calls.{
  SpecialCall, negotiate, negotiate_all, negotiate_all-IsStaffed, requesting, countering, agreeing,
  declining, lapsing, withdrawing,
}
use baytna.Specials.Capacity.{IsStaffed}
use baytna.Specials.Refinement.{negotiate-Follows}
use baytna.Specials.Schedule.{
  weekly_for, override_for, schedule_rule, capacity_used, ensure_schedulable, validate_notice,
  active_chef,
}
use baytna.Specials.Staffing.{create_request-IsStaffed}
use baytna.Specials.Steps.{Follows}

abbrev wish : SpecialOrderCreateRequest
wish = record {
  dish_id = 2;
  quantity = 4;
  requested_service_date = 4;
  requested_window_start = none;
  requested_window_end = none;
}

shop-IsStaffed : IsStaffed shop
unfolding capacity_used tally
shop-IsStaffed = record { keyed = tt; within = λ c d. omega arith }

-- A request, the chef's counter-offer, its acceptance, a second request, its rejection and an expiry.
abbrev feast : List SpecialCall
feast =
    requesting 55 10 wish
    ∷ countering 56 20 100 (record {
      proposed_service_date = 4;
      proposed_unit_price_minor = 250;
      proposed_window_start = none;
      proposed_window_end = none;
      chef_note = none;
    })
    ∷ agreeing 57 10 100
    ∷ requesting 58 10 wish
    ∷ declining 59 20 201 "fully booked"
    ∷ lapsing 60
    ∷ []

negotiate_all-IsStaffed_example : IsStaffed (negotiate_all small_platform configured feast shop)
negotiate_all-IsStaffed_example =
    negotiate_all-IsStaffed small_platform configured feast shop shop-IsStaffed

abbrev asked_for : Db
asked_for = settle shop (negotiate small_platform configured (requesting 55 10 wish) shop)

asks : negotiate small_platform configured (requesting 55 10 wish) shop ≡ ok asked_for
unfolding negotiate create_request validate_notice ensure_schedulable active_chef schedule_rule
    weekly_for override_for capacity_used tally get put above
asks = refl

asked_for-IsStaffed : IsStaffed asked_for
unfolding create_request negotiate
asked_for-IsStaffed =
    create_request-IsStaffed 55 shop asked_for shop-IsStaffed small_platform configured 10 wish asks

abbrev withdrawn : Db
withdrawn = settle asked_for (negotiate small_platform configured (withdrawing 56 10 100) asked_for)

withdraws : negotiate small_platform configured (withdrawing 56 10 100) asked_for ≡ ok withdrawn
unfolding negotiate create_request validate_notice ensure_schedulable active_chef schedule_rule
    weekly_for override_for capacity_used tally get put above cancel customer_request end_order
    SpecialStatus-discrete
withdraws = refl

negotiate-Follows_example : Follows asked_for withdrawn
negotiate-Follows_example =
    negotiate-Follows small_platform configured (withdrawing 56 10 100) asked_for withdrawn
      asked_for-IsStaffed withdraws
