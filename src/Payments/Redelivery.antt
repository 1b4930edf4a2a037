-- ===== src/Payments/Redelivery.antt =====
-- A notice that arrives again, and the points of an order that is delivered again.
use text.Mathlib.TextPositions.{eq_refl}
use baytna.Prelude.{ℕ, String, ◌≡◌, inl, inr, true, none, arith, Option-cases}
use baytna.Prelude.Table.{find}
use baytna.Entities.{Payment}
use baytna.Entities.Status.{Processing}
use baytna.Payments.Webhook.{
  WebhookRequest, seen, references, log_webhook, dispatch, process_webhook,
}
use baytna.Session.{Db, Checked-cases, ok}

seen_after :
    (now : ℕ) (provider payload_hash : String) (req : WebhookRequest) (outcome : Processing)
    (db : Db)
    → seen provider req.event_id
        (log_webhook now provider payload_hash req outcome db).webhook_events
      ≡ true
unfolding seen
seen_after now provider payload_hash req outcome db =
    grind (arith, eq_refl provider, eq_refl req.event_id)

dispatch-seen :
    (now : ℕ) (provider payload_hash : String) (req : WebhookRequest) (p : Payment) (db db' : Db)
    → dispatch now provider payload_hash req p db ≡ ok db'
    → seen provider req.event_id db'.webhook_events ≡ true
unfolding dispatch
dispatch-seen now provider payload_hash req p db db' h = grind (arith, seen_after)

answered-seen :
    (upper : String → String) (own : String) (now : ℕ) (provider payload_hash : String)
    (req : WebhookRequest) (db : Db)
    → let first = process_webhook upper own now provider payload_hash req db in
      first.error ≡ none → seen provider req.event_id first.db.webhook_events ≡ true
unfolding process_webhook
answered-seen upper own now provider payload_hash req db h =
    elim (Option-cases (find (references provider req.payment_reference) db.payments)) [
      | inl unknown ↦ grind (arith, seen_after)
      | inr (p, found) ↦ elim (Checked-cases (dispatch now provider payload_hash req p db)) [
        | inl (e, raised) ↦ ground arith
        | inr (done, dispatched) ↦
            ground (arith, dispatch-seen now provider payload_hash req p db done dispatched)
      ]
    ]

-- A notice that was answered without an error may be delivered again, at any time and even with
-- another body under the same event: it is answered without an error and changes nothing.
pub process_webhook_again :
    (upper : String → String) (own : String) (now later : ℕ)
    (provider payload_hash payload_hash' : String) (req req' : WebhookRequest) (db : Db)
    → req'.event_id ≡ req.event_id
    → let first = process_webhook upper own now provider payload_hash req db in
      first.error ≡ none
      → process_webhook upper own later provider payload_hash' req' first.db
        ≡ record { db = first.db; error = none }
unfolding process_webhook
process_webhook_again upper own now later provider payload_hash payload_hash' req req' db e h =
    ground (arith, answered-seen upper own now provider payload_hash req db h)
