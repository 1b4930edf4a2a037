-- ===== src/Reliability/Outbox.antt =====
-- The outbox (`backend/app/modules/reliability/outbox.py`).
use baytna.Prelude.{ℕ, String, Bool, Option, none, List, if◌then◌else◌, is_some, some}
use baytna.Prelude.Table.{Table, put, find, above}
use baytna.Entities.{DedupeKey, OutboxEvent}
use baytna.Journal.{same_key}
use baytna.Reliability.Queue.{Worker, Batch, run_due}
use baytna.Reliability.Rows.{WorkStatus, Work, number_or, instant_or}
use baytna.Settings.{Settings}

-- `enqueue`: a dedupe key is used once.
unfoldable pub has_event : DedupeKey → Table (Work OutboxEvent) → Bool
has_event k t = is_some (find (λ w. same_key k w.subject.dedupe_key) t)

-- The attempts that an event gets: the service may have no settings.
abbrev pub configured_attempts : Option Settings → Option ℕ → ℕ
configured_attempts none max_attempts = number_or max_attempts 8
configured_attempts (some settings) max_attempts =
    number_or max_attempts settings.outbox_max_attempts

abbrev pub new_event :
    Option Settings → ℕ → ℕ → Option ℕ → Option ℕ → OutboxEvent → Work OutboxEvent
new_event settings id now available_at max_attempts e = record {
  id = id;
  subject = e;
  status = WorkStatus.pending;
  attempts = 0;
  max_attempts = configured_attempts settings max_attempts;
  available_at = instant_or available_at now;
  locked_at = none;
  locked_by = none;
  done_at = none;
  last_error = none;
  created_at = now;
}

unfoldable pub enqueue_event :
    Option Settings
    → ℕ
    → Option ℕ
    → Option ℕ
    → OutboxEvent
    → Table (Work OutboxEvent)
    → Table (Work OutboxEvent)
unfolding has_event
enqueue_event settings now available_at max_attempts e t =
    if has_event e.dedupe_key t
    then t
    else put (above t) (new_event settings (above t) now available_at max_attempts e) t

-- The worker of `publish_due`. The publisher is given, and answers the text of its exception.
unfoldable pub event_worker :
    Settings → String → (Work OutboxEvent → Option String) → Worker OutboxEvent (Unit {0})
event_worker settings worker_id publish = record {
  worker_id = worker_id;
  base = settings.retry_base_seconds;
  stamps = λ now published_at. published_at;
  attempt = λ now w s. record { state = tt; error = publish w };
}

-- `publish_due`, at the instants of its iterations, of which there are at most `limit`.
unfoldable pub publish_due :
    Settings
    → String
    → (Work OutboxEvent → Option String)
    → List ℕ
    → Table (Work OutboxEvent)
    → Batch OutboxEvent (Unit {0})
unfolding event_worker
publish_due settings worker_id publish instants t =
    run_due (event_worker settings worker_id publish) instants tt t
