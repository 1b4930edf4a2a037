-- ===== src/Payments/Webhook.antt =====
-- The provider's notices (`process_webhook` of `backend/app/modules/payments/service.py`).
use text.Mathlib.Text.{◌==◌ as str_eq}
use baytna.Prelude.{
  ℕ, String, Bool, false, not, ◌&&◌, ◌||◌, Option, none, some, List, [], ◌∷◌, ◌==◌, if◌then◌else◌,
}
use baytna.Prelude.Table.{find}
use baytna.Entities.{Payment, PaymentWebhookEvent}
use baytna.Entities.Status.{Processing}
use baytna.Journal.{audit}
use baytna.Payments.{apply_payment_success, apply_payment_failure}
use baytna.Session.{Db, ApiError, Checked, Ended, ended, ok, err}

-- `PaymentWebhookRequest`
pub record WebhookRequest : Type 0 where
  pub event_id : String
  pub event_type : String
  pub payment_reference : String
  pub amount_minor : Option ℕ
  pub currency : Option String

-- `webhook_event`
unfoldable pub seen : String → String → List PaymentWebhookEvent → Bool
seen provider event_id [] = false
seen provider event_id (e ∷ es) =
    (str_eq provider e.provider && str_eq event_id e.provider_event_id) || seen provider event_id es

abbrev pub references : String → String → Payment → Bool
references provider reference p =
    str_eq p.provider provider
    && (elim p.provider_reference [ none ↦ false | some r ↦ str_eq r reference ])

abbrev pub differs : ℕ → Option ℕ → Bool
differs n none = false
differs n (some m) = not (m == n)

abbrev pub currency_differs : (String → String) → String → Option String → Bool
currency_differs upper c none = false
currency_differs upper c (some d) = not (str_eq (upper d) c)

-- The event's row, with the outcome of its processing.
abbrev pub log_webhook : ℕ → String → String → WebhookRequest → Processing → Db → Db
log_webhook now provider payload_hash req outcome db = record db {
  webhook_events =
      record {
        provider = provider;
        provider_event_id = req.event_id;
        event_type = req.event_type;
        provider_reference = req.payment_reference;
        payload_hash = payload_hash;
        processing_status = outcome;
        processed_at = some now;
      }
      ∷ db.webhook_events;
}

-- The event commits with what it does, so a later error is stored only where the code commits it.
abbrev pub logged : ℕ → String → String → WebhookRequest → Checked Db → Checked Db
logged now provider payload_hash req (ok db) =
    ok (log_webhook now provider payload_hash req Processing.processed db)
logged now provider payload_hash req (err e) = err e

-- The branches on `payload.event_type`.
unfoldable pub dispatch : ℕ → String → String → WebhookRequest → Payment → Db → Checked Db
dispatch now provider payload_hash req p db =
    if str_eq req.event_type "payment.succeeded"
    then logged now provider payload_hash req (apply_payment_success now p db)
    else if str_eq req.event_type "payment.failed" || str_eq req.event_type "payment.cancelled"
    then (logged now provider payload_hash req
        (apply_payment_failure now (str_eq req.event_type "payment.cancelled") p db))
    else ok (log_webhook now provider payload_hash req Processing.ignored db)

abbrev pub api_error : ℕ → String → ApiError
api_error status code = record { status_code = status; code = code }

-- `process_webhook`, for the service's provider; `upper` is Python's `str.upper`. A payment that does
-- not match in amount or currency is answered with an error, and its event is stored as failed.
unfoldable pub process_webhook :
    (String → String) → String → ℕ → String → String → WebhookRequest → Db → Ended
process_webhook upper own now provider payload_hash req db =
    if not (str_eq provider own)
    then record { db = db; error = some (api_error 404 "payment_provider_unknown") }
    else if seen provider req.event_id db.webhook_events
    then record { db = db; error = none }
    else (elim (find (references provider req.payment_reference) db.payments) [
      | none ↦ record {
        db =
            audit "payment.webhook.ignored" none "payment_webhook_event" db.next_id
              (log_webhook now provider payload_hash req Processing.ignored db);
        error = none;
      }
      | some p ↦
          if differs p.amount_minor req.amount_minor
          then record {
            db = log_webhook now provider payload_hash req Processing.failed db;
            error = some (api_error 400 "payment_amount_mismatch");
          }
          else if currency_differs upper p.currency req.currency
          then record {
            db = log_webhook now provider payload_hash req Processing.failed db;
            error = some (api_error 400 "payment_currency_mismatch");
          }
          else ended db (dispatch now provider payload_hash req p db)
    ])
