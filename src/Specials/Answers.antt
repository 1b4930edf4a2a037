-- ===== src/Specials/Answers.antt =====
-- The chef's answers to a special order, and the expiry of offers
-- (`backend/app/modules/special_orders/service.py`).
use baytna.Prelude.{ℕ, ◌*◌, String, Bool, true, false, not, ◌&&◌, Option, none, some, if◌then◌else◌}
use baytna.Prelude.Table.{Table, get, empty, row}
use baytna.Entities.{SpecialOrderRequest}
use baytna.Entities.Status.{
  ◌is◌, OrderStatus, SpecialStatus, order_status, task_status, driver_status, stage_status,
  item_status, hold_status, payment_status, order_type_status, special_status, redemption_status,
}
use baytna.Journal.{audit, emit_row, emit}
use baytna.Pricing.{has_passed}
use baytna.Session.{Db, Checked, ◌>>=◌, ◌>>◌, raise_if, or_crash, ok}
use baytna.Settings.{Settings, Platform}
use baytna.Specials.{move_special, or_text, chef_request, offer_end, end_order}
use baytna.Specials.Schedule.{Rule, or_else, ensure_schedulable, validate_notice}

pub record ChefAcceptRequest : Type 0 where
  pub unit_price_minor : Option ℕ
  pub window_start : Option String
  pub window_end : Option String
  pub chef_note : Option String

-- The row of an accepted request.
abbrev pub quoted_row :
    Settings → ℕ → ChefAcceptRequest → Rule → SpecialOrderRequest → SpecialOrderRequest
quoted_row settings now q rule r =
    let price = or_else q.unit_price_minor r.requested_unit_price_minor in
    record r {
      status = SpecialStatus.awaiting_payment;
      final_service_date = some r.requested_service_date;
      final_window_start =
          or_text q.window_start (or_text r.requested_window_start rule.window_start);
      final_window_end = or_text q.window_end (or_text r.requested_window_end rule.window_end);
      final_unit_price_minor = some price;
      final_total_minor = some (price * r.quantity);
      chef_note = q.chef_note;
      chef_responded_at = some now;
      offer_expires_at = some (offer_end settings now);
    }

-- `chef_accept`; a second acceptance answers the request as it is.
unfoldable pub chef_accept : Settings → ℕ → ℕ → ℕ → ChefAcceptRequest → Db → Checked Db
unfolding ensure_schedulable chef_request
chef_accept settings now chef_id id q db = do
  r ← chef_request chef_id id db
  (if r.status is SpecialStatus.awaiting_payment then ok db else (do
    raise_if (not (r.status is SpecialStatus.chef_review)) 409 "special_order_cannot_accept"
    rule ←
        ensure_schedulable chef_id r.requested_service_date
          (or_text q.window_start r.requested_window_start)
          (or_text q.window_end r.requested_window_end) (some id) db
    let db1 =
        move_special id r (quoted_row settings now q rule r) (some chef_id) "chef_accepted_quote" db
    let db2 = emit r.customer_id "special_order_accepted" "special-order-accepted" id db1
    ok (audit "chef.special_order.accepted" (some chef_id) "special_order_request" id db2)))

pub record ChefCounterOfferRequest : Type 0 where
  pub proposed_service_date : ℕ
  pub proposed_unit_price_minor : ℕ
  pub proposed_window_start : Option String
  pub proposed_window_end : Option String
  pub chef_note : Option String

abbrev pub countered_row : ℕ → ChefCounterOfferRequest → SpecialOrderRequest → SpecialOrderRequest
countered_row now q r = record r {
  status = SpecialStatus.counter_offer;
  proposed_service_date = some q.proposed_service_date;
  proposed_window_start = q.proposed_window_start;
  proposed_window_end = q.proposed_window_end;
  proposed_unit_price_minor = some q.proposed_unit_price_minor;
  chef_note = q.chef_note;
  chef_responded_at = some now;
}

-- The notification of a counter-offer has the instant of the answer in its key.
abbrev pub emit_counter : ℕ → ℕ → ℕ → Db → Db
emit_counter user_id id now db = record db {
  notifications =
      emit_row
        (record {
          user_id = user_id;
          kind = "special_order_counter_offer";
          dedupe_key = record { prefix = "special-order-counter"; id = id; stamp = some now };
        })
        db.notifications;
}

-- `chef_counter_offer`
unfoldable pub chef_counter_offer :
    Platform → Settings → ℕ → ℕ → ℕ → ChefCounterOfferRequest → Db → Checked Db
unfolding ensure_schedulable validate_notice chef_request
chef_counter_offer platform settings now chef_id id q db = do
  r ← chef_request chef_id id db
  raise_if (not (r.status is SpecialStatus.chef_review)) 409 "special_order_cannot_counter"
  dish ← or_crash (get r.dish_id db.catalog.dishes)
  validate_notice settings (platform.today now) q.proposed_service_date dish.prep_notice_hours
  rule ←
      ensure_schedulable chef_id q.proposed_service_date q.proposed_window_start
        q.proposed_window_end (some id) db
  let db1 = move_special id r (countered_row now q r) (some chef_id) "chef_counter_offer" db
  ok (
      audit "chef.special_order.counter_offered" (some chef_id) "special_order_request" id
        (emit_counter r.customer_id id now db1))

abbrev pub may_reject : SpecialStatus → Bool
may_reject SpecialStatus.chef_review = true
may_reject SpecialStatus.counter_offer = true
may_reject _ = false

-- `chef_reject`
unfoldable pub chef_reject : ℕ → ℕ → ℕ → String → Db → Checked Db
unfolding chef_request
chef_reject now chef_id id reason db = do
  r ← chef_request chef_id id db
  (if r.status is SpecialStatus.rejected then ok db else (do
    raise_if (not (may_reject r.status)) 409 "special_order_cannot_reject"
    let db1 =
        move_special id r
          (record r {
            status = SpecialStatus.rejected;
            rejection_reason = some reason;
            chef_responded_at = some now;
          })
          (some chef_id) reason db
    let db2 = emit r.customer_id "special_order_rejected" "special-order-rejected" id db1
    ok (audit "chef.special_order.rejected" (some chef_id) "special_order_request" id db2)))

-- `_expire_one`
unfoldable pub expire_one : ℕ → ℕ → SpecialOrderRequest → Db → Db
unfolding end_order
expire_one now id r db =
    move_special id r (record r { status = SpecialStatus.expired }) none "offer_expired"
      (end_order now OrderStatus.expired none "special_order_offer_expired" r.order_id db)

abbrev pub is_overdue : ℕ → SpecialOrderRequest → Bool
is_overdue now r = r.status is SpecialStatus.awaiting_payment && has_passed now r.offer_expires_at

-- The loop of `expire_due_requests`, over the rows that the query found.
unfoldable pub expire_rows : ℕ → Table SpecialOrderRequest → Db → Db
unfolding expire_one
expire_rows now empty db = db
expire_rows now (row id r t) db =
    expire_rows now t (if is_overdue now r then expire_one now id r db else db)

-- `expire_due_requests`
unfoldable pub expire_due_requests : ℕ → Db → Db
unfolding expire_rows
expire_due_requests now db = expire_rows now db.specials db
