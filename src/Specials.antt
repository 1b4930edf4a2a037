-- ===== src/Specials.antt =====
-- The negotiation of a special order (`backend/app/modules/special_orders/service.py`).
pub mod Schedule
pub mod Answers
pub mod Capacity
pub mod Staffing
pub mod Calls
pub mod Steps
pub mod Refinement
use Schedule.{Rule, ensure_schedulable, validate_notice, active_chef}
use baytna.Prelude.{
  ℕ, ◌+◌, ◌*◌, String, Bool, true, false, not, Option, none, some, ◌∷◌, ◌==◌, if◌then◌else◌,
}
use baytna.Prelude.Table.{get, put, above}
use baytna.Entities.{SpecialOrderRequest}
use baytna.Entities.Market.{Dish}
use baytna.Entities.Status.{
  ◌is◌, OrderStatus, SpecialStatus, order_status, task_status, driver_status, stage_status,
  item_status, hold_status, payment_status, order_type_status, special_status, redemption_status,
}
use baytna.Delivery.Repository.{is_active}
use baytna.Journal.{order_event, audit}
use baytna.Orders.Checkout.{window_start, window_end}
use baytna.Pricing.Discounts.{price}
use baytna.Session.{Db, Checked, ◌>>=◌, ◌>>◌, raise_if, or_raise, ok}
use baytna.Settings.{Settings, Platform, minute}
use baytna.Timing.Promise.{is_blank}

-- `_event`
abbrev pub special_event : ℕ → Option SpecialStatus → SpecialStatus → Option ℕ → String → Db → Db
special_event id from to actor reason db = record db {
  special_events =
      record {
        special_order_id = id;
        from_status = from;
        to_status = to;
        actor_user_id = actor;
        reason = reason;
      }
      ∷ db.special_events;
}

-- The request's new row, with its event.
abbrev pub move_special :
    ℕ → SpecialOrderRequest → SpecialOrderRequest → Option ℕ → String → Db → Db
move_special id old new actor reason db =
    special_event id (some old.status) new.status actor reason
      (record db { specials = put id new db.specials })

-- `a or b`, of texts that may be missing.
abbrev pub or_text : Option String → Option String → Option String
or_text a b = if is_blank a then b else a

-- `_customer_request` and `_chef_request`
unfoldable pub customer_request : ℕ → ℕ → Db → Checked SpecialOrderRequest
customer_request customer_id id db = do
  r ← or_raise 404 "special_order_not_found" (get id db.specials)
  raise_if (not (r.customer_id == customer_id)) 404 "special_order_not_found"
  ok r

unfoldable pub chef_request : ℕ → ℕ → Db → Checked SpecialOrderRequest
chef_request chef_id id db = do
  r ← or_raise 404 "special_order_not_found" (get id db.specials)
  raise_if (not (r.chef_id == chef_id)) 404 "special_order_not_found"
  ok r

pub record SpecialOrderCreateRequest : Type 0 where
  pub dish_id : ℕ
  pub quantity : ℕ
  pub requested_service_date : ℕ
  pub requested_window_start : Option String
  pub requested_window_end : Option String

-- An identifier that no request has.
abbrev pub new_special_id : Db → ℕ
new_special_id db = db.next_id + above db.specials

abbrev pub new_special : ℕ → ℕ → ℕ → SpecialOrderCreateRequest → Dish → Rule → SpecialOrderRequest
new_special id customer_id chef_id q dish rule = record {
  id = id;
  customer_id = customer_id;
  chef_id = chef_id;
  dish_id = q.dish_id;
  order_id = none;
  status = SpecialStatus.chef_review;
  quantity = q.quantity;
  requested_service_date = q.requested_service_date;
  requested_window_start = or_text q.requested_window_start rule.window_start;
  requested_window_end = or_text q.requested_window_end rule.window_end;
  requested_unit_price_minor = dish.base_price_minor;
  proposed_service_date = none;
  proposed_window_start = none;
  proposed_window_end = none;
  proposed_unit_price_minor = none;
  final_service_date = none;
  final_window_start = none;
  final_window_end = none;
  final_unit_price_minor = none;
  final_total_minor = none;
  chef_note = none;
  rejection_reason = none;
  offer_expires_at = none;
  chef_responded_at = none;
  customer_accepted_at = none;
  scheduled_at = none;
  cancelled_at = none;
}

-- `create_request`
unfoldable pub create_request :
    Platform → Settings → ℕ → ℕ → SpecialOrderCreateRequest → Db → Checked Db
unfolding validate_notice ensure_schedulable active_chef
create_request platform settings now customer_id q db = do
  dish ← or_raise 404 "dish_not_found" (get q.dish_id db.catalog.dishes)
  raise_if (not dish.is_active) 404 "dish_not_found"
  raise_if (not dish.is_special_order_available) 409 "special_order_not_available"
  chef ← active_chef dish.chef_id db
  validate_notice settings (platform.today now) q.requested_service_date dish.prep_notice_hours
  rule ←
      ensure_schedulable dish.chef_id q.requested_service_date q.requested_window_start
        q.requested_window_end none db
  let id = new_special_id db
  let db1 : Db = record db {
    next_id = id + 1;
    specials = put id (new_special id customer_id dish.chef_id q dish rule) db.specials;
  }
  ok (
      audit "customer.special_order.created" (some customer_id) "special_order_request" id (
        special_event id none SpecialStatus.chef_review (some customer_id) "customer_submitted"
          db1))

-- `offer_expires_at`, of an offer that is made now.
abbrev pub offer_end : Settings → ℕ → ℕ
offer_end settings now = now + settings.special_order_payment_window_minutes * minute

-- The row of an accepted counter-offer.
abbrev pub settled_offer : Settings → ℕ → ℕ → ℕ → SpecialOrderRequest → SpecialOrderRequest
settled_offer settings now service_date price r = record r {
  status = SpecialStatus.awaiting_payment;
  final_service_date = some service_date;
  final_window_start = r.proposed_window_start;
  final_window_end = r.proposed_window_end;
  final_unit_price_minor = some price;
  final_total_minor = some (price * r.quantity);
  customer_accepted_at = some now;
  offer_expires_at = some (offer_end settings now);
}

-- `accept_counter_offer`; a second acceptance answers the request as it is.
unfoldable pub accept_counter_offer : Settings → ℕ → ℕ → ℕ → Db → Checked Db
unfolding ensure_schedulable customer_request
accept_counter_offer settings now customer_id id db = do
  r ← customer_request customer_id id db
  (if r.status is SpecialStatus.awaiting_payment then ok db else (do
    raise_if (not (r.status is SpecialStatus.counter_offer)) 409 "special_order_not_counter_offer"
    service_date ← or_raise 409 "counter_offer_invalid" r.proposed_service_date
    price ← or_raise 409 "counter_offer_invalid" r.proposed_unit_price_minor
    rule ←
        ensure_schedulable r.chef_id service_date r.proposed_window_start r.proposed_window_end
          (some id) db
    ok (
        audit "customer.special_order.counter_accepted" (some customer_id) "special_order_request"
          id
          (move_special id r (settled_offer settings now service_date price r) (some customer_id)
            "customer_accepted_counter_offer" db))))

-- The order of a request that ends before its payment.
unfoldable pub end_order : ℕ → OrderStatus → Option ℕ → String → Option ℕ → Db → Db
end_order now status actor reason none db = db
end_order now status actor reason (some order_id) db = elim (get order_id db.orders) [
  | none ↦ db
  | some o ↦
      if o.status is OrderStatus.pending_payment
      then (order_event now order_id (some OrderStatus.pending_payment) status actor reason
          (record db {
            orders = put order_id (record o { status = status; updated_at = now }) db.orders;
          }))
      else db
]

abbrev pub is_closed : SpecialStatus → Bool
is_closed SpecialStatus.scheduled = true
is_closed SpecialStatus.rejected = true
is_closed SpecialStatus.expired = true
is_closed _ = false

-- `cancel`
unfoldable pub cancel : ℕ → ℕ → ℕ → Db → Checked Db
unfolding customer_request end_order
cancel now customer_id id db = do
  r ← customer_request customer_id id db
  (if r.status is SpecialStatus.cancelled then ok db else (do
    raise_if (is_closed r.status) 409 "special_order_cannot_cancel"
    let db1 =
        end_order now OrderStatus.cancelled (some customer_id)
          "special_order_cancelled_before_payment" r.order_id db
    ok (
        audit "customer.special_order.cancelled" (some customer_id) "special_order_request" id (
          move_special id r (record r { status = SpecialStatus.cancelled; cancelled_at = some now })
            (some customer_id) "customer_cancelled" db1))))
