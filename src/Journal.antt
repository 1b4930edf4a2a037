-- ===== src/Journal.antt =====
-- The records that every handler appends beside its own rows: order status events, the audit log
-- (`core/repositories.py`), the outbox (`modules/reliability/outbox.py`) and the notifications
-- (`modules/notifications/service.py`).
use text.Mathlib.Text.{◌==◌ as str_eq}
use baytna.Prelude.{
  ℕ, Option, Bool, false, List, [], ◌∷◌, String, ◌&&◌, ◌||◌, ◌==◌, if◌then◌else◌, true, none, some,
}
use baytna.Prelude.Table.{Table, find}
use baytna.Entities.{DedupeKey, OutboxEvent, Notification, SpecialOrderRequest}
use baytna.Entities.Status.{OrderStatus}
use baytna.Session.{Db}

-- `OrderStatusEventEntity(...)`, stamped when it is added.
abbrev pub order_event : ℕ → ℕ → Option OrderStatus → OrderStatus → Option ℕ → String → Db → Db
order_event now order_id from_status to_status actor reason db = record db {
  order_events =
      record {
        order_id = order_id;
        from_status = from_status;
        to_status = to_status;
        actor_user_id = actor;
        reason = reason;
        created_at = now;
      }
      ∷ db.order_events;
}

-- `AuditRepository.add`
abbrev pub audit : String → Option ℕ → String → ℕ → Db → Db
audit action actor entity_type entity_id db = record db {
  audit =
      record {
        action = action;
        actor_user_id = actor;
        entity_type = entity_type;
        entity_id = entity_id;
      }
      ∷ db.audit;
}

abbrev pub same_stamp : Option ℕ → Option ℕ → Bool
same_stamp none none = true
same_stamp (some a) (some b) = a == b
same_stamp _ _ = false

abbrev pub same_key : DedupeKey → DedupeKey → Bool
same_key j k = j.id == k.id && str_eq j.prefix k.prefix && same_stamp j.stamp k.stamp

pub enqueued : DedupeKey → List OutboxEvent → Bool
enqueued k [] = false
enqueued k (e ∷ es) = same_key k e.dedupe_key || enqueued k es

-- `OutboxService.enqueue` on the table: a dedupe key is used once.
unfoldable pub enqueue_row : OutboxEvent → List OutboxEvent → List OutboxEvent
unfolding enqueued
enqueue_row e es = if enqueued e.dedupe_key es then es else e ∷ es

abbrev pub enqueue : String → String → ℕ → Db → Db
enqueue event_type aggregate_type aggregate_id db = record db {
  outbox =
      enqueue_row
        (record {
          event_type = event_type;
          aggregate_type = aggregate_type;
          aggregate_id = aggregate_id;
          dedupe_key = record { prefix = event_type; id = aggregate_id; stamp = none };
        })
        db.outbox;
}

pub emitted : ℕ → DedupeKey → List Notification → Bool
emitted user k [] = false
emitted user k (n ∷ ns) = (user == n.user_id && same_key k n.dedupe_key) || emitted user k ns

-- `NotificationService.emit` on the table: a user gets one notification for a dedupe key.
unfoldable pub emit_row : Notification → List Notification → List Notification
unfolding emitted
emit_row n ns = if emitted n.user_id n.dedupe_key ns then ns else n ∷ ns

abbrev pub emit : ℕ → String → String → ℕ → Db → Db
emit user_id kind prefix id db = record db {
  notifications =
      emit_row
        (record {
          user_id = user_id;
          kind = kind;
          dedupe_key = record { prefix = prefix; id = id; stamp = none };
        })
        db.notifications;
}

-- `select(SpecialOrderRequestEntity).where(order_id == ...)`
unfoldable pub special_for : ℕ → Table SpecialOrderRequest → Option SpecialOrderRequest
special_for order_id = find (λ r. elim r.order_id [ none ↦ false | some i ↦ i == order_id ])
