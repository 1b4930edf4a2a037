-- ===== src/Scenarios/Kitchen.antt =====
-- Properties of the kitchen, the benefits and the timing at the shop.
use baytna.Prelude.{ℕ, ◌+◌, ◌*◌, ◌<◌, String, ◌≡◌, refl, none, some, arith, ◌+++◌}
use baytna.Prelude.Table.{get, find, find_last, empty, row}
use baytna.Entities.Status.{
  OrderStatus, OrderStatus-discrete, Stage, Stage-discrete, PaymentStatus, PaymentStatus-discrete,
  RedemptionStatus,
}
use baytna.Benefits.{release_for_unpaid_order, apply_for_paid_order}
use baytna.Benefits.Once.{settled_once}
use baytna.Delivery.Coupling.{status_in}
use baytna.Delivery.Runs.{IsSound}
use baytna.Fulfillment.{order_for_chef, confirmed_at, new_fulfillment, sync_queue}
use baytna.Fulfillment.Queue.{Queued, sync_queue-Queued}
use baytna.Fulfillment.Ready.{ready_for_pickup-IsSound}
use baytna.Fulfillment.Rejection.{is_valid_request, refund_remaining, cancel_rejected, reject}
use baytna.Fulfillment.Shortfall.{refund_remaining_too_long, reject_keeps_money}
use baytna.Fulfillment.Stages.{mark_ready, ready_for_pickup}
use baytna.Loyalty.{recorded, multiplier_bps, points_for, award_for_delivered_order}
use baytna.Loyalty.Once.{award_once}
use baytna.Payments.Refunds.{
  RefundRequest, succeeded_payment_for, refund_by_idempotency, RefundCall, create_refund,
}
use baytna.Scenarios.{an_order, a_payment, shop, configured, generous, disabled}
use baytna.Scenarios.Healthy.{disabled-AlwaysFails}
use baytna.Session.{Db, raise, settle, ok}
use baytna.Settings.{second, minute}
use baytna.Timing.{evaluate}
use baytna.Timing.Lateness.{evaluate_late_by}

abbrev some_id : ℕ → String
some_id i = "00000000-0000-0000-0000-000000000000"

abbrev rejected_shop : Db
rejected_shop = settle shop (reject some_id disabled configured 55 20 1 "out of gas" shop)

rejection_goes_through :
    reject some_id disabled configured 55 20 1 "out of gas" shop ≡ ok rejected_shop
unfolding reject refund_remaining cancel_rejected create_refund is_valid_request order_for_chef get
    OrderStatus-discrete Stage-discrete succeeded_payment_for find_last PaymentStatus-discrete
    refund_by_idempotency find confirmed_at
rejection_goes_through = refl

reject_keeps_money_example :
    (status_in (get 1 rejected_shop.orders) ≡ some OrderStatus.cancelled)
    × (get 50 rejected_shop.payments ≡ some (a_payment 50 1 PaymentStatus.succeeded "ref-1"))
    × ((call : RefundCall) (later admin : ℕ) (req : RefundRequest)
        → create_refund call later admin 1 req rejected_shop
          ≡ raise 409 "refund_order_not_confirmed")
unfolding order_for_chef get succeeded_payment_for find_last PaymentStatus-discrete
reject_keeps_money_example =
    reject_keeps_money some_id disabled configured 55 20 1 "out of gas"
      (an_order 10 OrderStatus.confirmed) (a_payment 50 1 PaymentStatus.succeeded "ref-1") shop
      rejected_shop disabled-AlwaysFails refl refl refl refl rejection_goes_through

abbrev ten_words : String
ten_words = "aaaaaaaaaaaaaaaaaaaaaaaaaaaaaaaaaaaaaaaaaaaaaaaa"

-- 240 characters, as many as `RejectOrderRequest` accepts.
abbrev long_reason : String
long_reason = ten_words +++ (ten_words +++ (ten_words +++ (ten_words +++ ten_words)))

refund_remaining_too_long_example :
    refund_remaining some_id generous 55 20 1 long_reason
      (a_payment 50 1 PaymentStatus.succeeded "ref-1")
      shop
    ≡ raise 500 "validation_error"
refund_remaining_too_long_example =
    refund_remaining_too_long some_id generous 55 20 1 long_reason
      (a_payment 50 1 PaymentStatus.succeeded "ref-1") shop (ground arith) (ground arith)

-- Order 1 is packed and has no mission yet.
abbrev packed_shop : Db
packed_shop = record shop {
  orders = row 1 (an_order 10 OrderStatus.preparing) empty;
  fulfillments = row 1 (new_fulfillment 20 Stage.packaging 90) empty;
  tasks = empty;
}

packed_shop-IsSound : IsSound packed_shop
unfolding get
packed_shop-IsSound = record {
  coupled = record {
    rows = λ k t h. ground arith;
    unique = λ j k t u hj hk e. ground arith;
    fresh = λ k t h. ground arith;
  };
  exclusive = λ i j t u hi hj at' au e. ground arith;
}

abbrev ready_shop : Db
ready_shop = settle packed_shop (ready_for_pickup 70 20 1 none packed_shop)

readiness_goes_through : ready_for_pickup 70 20 1 none packed_shop ≡ ok ready_shop
unfolding ready_for_pickup order_for_chef get OrderStatus-discrete Stage-discrete mark_ready
readiness_goes_through = refl

ready_for_pickup-IsSound_example : IsSound ready_shop
ready_for_pickup-IsSound_example =
    ready_for_pickup-IsSound 70 20 1 none packed_shop ready_shop readiness_goes_through
      packed_shop-IsSound

abbrev redeeming_shop : Db
redeeming_shop = record shop {
  loyalty_accounts =
      row 10
        (record { balance_points = 5; lifetime_earned_points = 25; lifetime_redeemed_points = 0 })
        empty;
  loyalty_redemptions =
      row 2
        (record {
          customer_id = 10;
          points = 20;
          discount_minor = 200;
          status = RedemptionStatus.reserved;
          applied_at = none;
          released_at = none;
          release_reason = none;
        })
        empty;
}

settled_once_example :
    let released = release_for_unpaid_order 55 2 "payment_failed" redeeming_shop in
    let applied = apply_for_paid_order 55 2 redeeming_shop in
    (release_for_unpaid_order 60 2 "expired" released ≡ released)
    × (apply_for_paid_order 60 2 released ≡ released)
    × (release_for_unpaid_order 60 2 "expired" applied ≡ applied)
    × (apply_for_paid_order 60 2 applied ≡ applied)
settled_once_example = settled_once 55 60 2 "payment_failed" "expired" redeeming_shop

abbrev awarded_shop : Db
awarded_shop =
    settle shop (award_for_delivered_order configured 1 (an_order 10 OrderStatus.delivered) shop)

award_goes_through :
    award_for_delivered_order configured 1 (an_order 10 OrderStatus.delivered) shop
    ≡ ok awarded_shop
unfolding award_for_delivered_order points_for multiplier_bps recorded
award_goes_through = refl

award_once_example :
    award_for_delivered_order configured 1 (an_order 10 OrderStatus.delivered) awarded_shop
    ≡ ok awarded_shop
award_once_example =
    award_once configured 1 (an_order 10 OrderStatus.delivered) shop awarded_shop award_goes_through

sync_queue-Queued_example :
    Queued 20 (sync_queue configured 20 shop).orders (sync_queue configured 20 shop).fulfillments
sync_queue-Queued_example = sync_queue-Queued configured 20 shop

evaluate_late_by_example :
    (m : ℕ) × ((evaluate (some 500) 70000000).late_by_minutes ≡ some m)
    × (0 < m)
    × (70000000 < 500 + m * minute + second)
    × (500 + m * minute < 70000000 + minute)
evaluate_late_by_example = evaluate_late_by 500 70000000 (ground arith)
