-- ===== src/Scenarios/Examples.antt =====
-- The properties at the shop, and what some requests answer there.
use baytna.Prelude.{String, ◌≡◌, refl, false, none, some, List, [], ◌∷◌, arith}
use baytna.Prelude.Table.{Table, get, put, find, find_last, empty, row}
use baytna.Entities.{DailyMenuItem}
use baytna.Entities.Status.{
  OrderStatus-discrete, OrderType-discrete, ItemStatus, ItemStatus-discrete, HoldStatus-discrete,
  PaymentStatus-discrete, OrderStatus, TaskStatus-discrete, DriverStatus-discrete,
}
use baytna.Delivery.Completion.{proof_asset, reference_of, complete, mark_delivered}
use baytna.Delivery.Coupling.{status_in}
use baytna.Delivery.Dispatch.{
  task_for_order, ensure_task_for_ready_order, sync_tasks, sync_ready_orders, accept_mission,
}
use baytna.Delivery.Issues.{report_issue, resume_after_issue}
use baytna.Delivery.Repository.{
  active_task_for_driver, claim_task, transition_task, transition_order, owned_task,
}
use baytna.Delivery.Runs.{
  DeliveryCall, run, IsSound, run-IsSound, ensure_task, claim, arrive, confirm, start, resume,
  deliver, report, sync, perform,
}
use baytna.Delivery.Transit.{arrive_pickup, confirm_pickup, start_delivery}
use baytna.Inventory.{reserve_inventory, new_hold}
use baytna.Inventory.Balance.{Balances, IsBalanced, reserve-Balances}
use baytna.Loyalty.{account_or_new, recorded, multiplier_bps, points_for, award_for_delivered_order}
use baytna.Orders.{release_expired_holds, cancel_pending_order}
use baytna.Orders.Holds.{any_expired, release_expired_holds_lem, cancel_pending_order-IsBalanced}
use baytna.Payments.{has_active, has_overdue, pay_standard, apply_payment_success}
use baytna.Payments.Redelivery.{process_webhook_again}
use baytna.Payments.Refunds.{succeeded_payment_for, refund_by_idempotency, create_refund}
use baytna.Payments.Stock.{process_webhook-IsBalanced}
use baytna.Payments.Webhook.{seen, dispatch, process_webhook}
use baytna.Scenarios.{koshari, shop, configured, generous, baytna_world, paid_notice, partly}
use baytna.Scenarios.Healthy.{shop-IsSound, shop-IsBalanced, shop-IsCovered, shop-IsHealthy}
use baytna.Session.{ok, settle}
use baytna.System.{
  Request, answer_all, driving, accepting, rejecting, notifying, cancelling, expiring,
}
use baytna.System.Health.{IsHealthy, answer_all-IsHealthy}
use baytna.System.Money.{IsCovered, create_refund-IsCovered}
use baytna.Timing.{evaluate, stamp_task}

abbrev evening : List Request
evening =
    notifying 55 "mock" "hash" paid_notice
    ∷ accepting 56 20 1 (record { estimated_ready_at = some 90; chef_note = none })
    ∷ driving (claim 57 30 7)
    ∷ rejecting generous 58 20 2 "out of gas"
    ∷ expiring 61
    ∷ driving (arrive 62 30 7)
    ∷ cancelling 63 12 4
    ∷ []

answer_all-IsHealthy_example : IsHealthy (answer_all baytna_world evening shop)
answer_all-IsHealthy_example = answer_all-IsHealthy baytna_world evening shop shop-IsHealthy

abbrev one_mission : List DeliveryCall
one_mission =
    sync
    ∷ ensure_task 3
    ∷ claim 57 30 7
    ∷ arrive 58 30 7
    ∷ report 30 7 (record { issue_code = "chef_late"; note = none })
    ∷ resume 59 30 7
    ∷ confirm 60 30 7
    ∷ start 61 30 7
    ∷ deliver 70 30 7
        (record { proof_type = "otp"; proof_reference = some "1234"; media_asset_id = none })
    ∷ []

run-IsSound_example : IsSound (run configured one_mission shop)
run-IsSound_example = run-IsSound configured one_mission shop shop-IsSound

abbrev upper_id : String → String
upper_id s = s

process_webhook-IsBalanced_example :
    IsBalanced (process_webhook upper_id "mock" 55 "mock" "hash" paid_notice shop).db
process_webhook-IsBalanced_example =
    process_webhook-IsBalanced upper_id "mock" 55 "mock" "hash" paid_notice shop shop-IsBalanced

release_expired_holds_example :
    IsBalanced (release_expired_holds 61 shop)
    × (any_expired 61 (release_expired_holds 61 shop).reservations ≡ false)
release_expired_holds_example = release_expired_holds_lem 61 shop shop-IsBalanced

cancel_pending_order-IsBalanced_example : IsBalanced (cancel_pending_order 55 10 2 shop).db
cancel_pending_order-IsBalanced_example =
    cancel_pending_order-IsBalanced 55 10 2 shop shop-IsBalanced

shop-Balances : Balances shop.items shop.reservations (λ _. 0)
shop-Balances k i h = omega (arith, shop-IsBalanced.balance k i h)

abbrev last_four : Table DailyMenuItem
last_four = row 5 (record koshari { quantity_available = 0; status = ItemStatus.sold_out }) empty

four_taken : reserve_inventory 5 4 shop.items ≡ some last_four
unfolding reserve_inventory get put ItemStatus-discrete
four_taken = refl

reserve-Balances_example : Balances last_four (new_hold 9 5 4 70 ∷ shop.reservations) (λ _. 0)
reserve-Balances_example =
    reserve-Balances 9 5 4 70 shop.items last_four shop.reservations shop-Balances four_taken

refund_goes_through :
    create_refund generous 55 40 1 partly shop
    ≡ ok (settle shop (create_refund generous 55 40 1 partly shop))
unfolding create_refund get OrderStatus-discrete succeeded_payment_for find_last
    PaymentStatus-discrete refund_by_idempotency find
refund_goes_through = refl

create_refund-IsCovered_example :
    IsCovered (settle shop (create_refund generous 55 40 1 partly shop))
create_refund-IsCovered_example =
    create_refund-IsCovered generous 55 40 1 partly shop
      (settle shop (create_refund generous 55 40 1 partly shop)) refund_goes_through shop-IsCovered

notice_taken : (process_webhook upper_id "mock" 55 "mock" "hash" paid_notice shop).error ≡ none
unfolding process_webhook seen find dispatch apply_payment_success pay_standard get
    PaymentStatus-discrete OrderStatus-discrete OrderType-discrete has_active has_overdue
    HoldStatus-discrete
notice_taken = refl

process_webhook_again_example :
    process_webhook upper_id "mock" 80 "mock" "hash" paid_notice
      (process_webhook upper_id "mock" 55 "mock" "hash" paid_notice shop).db
    ≡ record {
      db = (process_webhook upper_id "mock" 55 "mock" "hash" paid_notice shop).db;
      error = none;
    }
process_webhook_again_example =
    process_webhook_again upper_id "mock" 55 80 "mock" "hash" "hash" paid_notice paid_notice shop
      refl notice_taken

-- The mission of the run above ends with a delivered order.
mission_ends :
    status_in (get 3 (run configured one_mission shop).orders) ≡ some OrderStatus.delivered
unfolding run perform sync_ready_orders sync_tasks task_for_order find ensure_task_for_ready_order
    get put accept_mission active_task_for_driver claim_task transition_order owned_task
    transition_task arrive_pickup report_issue resume_after_issue confirm_pickup start_delivery
    mark_delivered complete proof_asset reference_of stamp_task evaluate award_for_delivered_order
    points_for multiplier_bps account_or_new recorded OrderStatus-discrete TaskStatus-discrete
    DriverStatus-discrete
mission_ends = refl
