-- ===== src/Scenarios/Works.antt =====
-- The queues at work.
use baytna.Prelude.{
  ℕ, ◌+◌, ◌*◌, ◌≤◌, String, ◌≡◌, refl, true, Option, none, some, [], ◌∷◌, arith, ◌==◌,
  if◌then◌else◌,
}
use baytna.Prelude.Table.{Table, get, empty, row}
use baytna.Entities.{OutboxEvent}
use baytna.Reliability.Budget.{IsQueue, budget}
use baytna.Reliability.Crashes.{crashes, alone, crashes_lem}
use baytna.Reliability.Dedupe.{IsOutbox, Holds, enqueue_event-IsOutbox}
use baytna.Reliability.Jobs.{schedule_maintenance}
use baytna.Reliability.Outbox.{new_event, enqueue_event, event_worker}
use baytna.Reliability.Progress.{run_due-budget}
use baytna.Reliability.Queue.{Worker, is_due, run_due}
use baytna.Reliability.Rows.{WorkStatus, WorkStatus-discrete, Work}
use baytna.Reliability.Schedule.{schedule_maintenance_once}
use baytna.Scenarios.{configured}
use baytna.Settings.{second}

abbrev at : ℕ → ℕ
at n = n * 3600 * second

abbrev ready_event : Work OutboxEvent
ready_event = new_event (some configured) 1 5 none none (record {
  event_type = "order.ready";
  aggregate_type = "order";
  aggregate_id = 3;
  dedupe_key = record { prefix = "order.ready"; id = 3; stamp = none };
})

-- One event that was never attempted, and one that has two attempts left.
abbrev small_outbox : Table (Work OutboxEvent)
small_outbox =
    row 1 (record ready_event { max_attempts = 1 })
      (row 2
        (record ready_event { id = 2; attempts = 6; status = WorkStatus.retry; available_at = 4 })
        empty)

-- A publisher that raises at every event but the first.
abbrev picky : Work OutboxEvent → Option String
picky w = if w.id == 1 then none else some "connection refused"

abbrev outbox_worker : Worker OutboxEvent (Unit {0})
outbox_worker = event_worker configured "worker-1" picky

small_outbox-IsQueue : IsQueue small_outbox
unfolding get
small_outbox-IsQueue = record {
  keyed = (refl, refl, (refl, refl, tt));
  sane = (
    record { attempts_left = λ h. ground arith; used_up = λ h. ground arith },
    (record { attempts_left = λ h. ground arith; used_up = λ h. ground arith }, tt),
  );
}

run_due-budget_example :
    let b = run_due outbox_worker (at 1 ∷ at 2 ∷ []) tt small_outbox in
    IsQueue b.rows × (b.succeeded + b.failures + budget b.rows ≤ budget small_outbox)
run_due-budget_example =
    run_due-budget outbox_worker (at 1 ∷ at 2 ∷ []) tt small_outbox small_outbox-IsQueue

due_now : is_due 5 ready_event ≡ true
unfolding WorkStatus-discrete
due_now = refl

crashes_example :
    (v : Work OutboxEvent) × (crashes 9 120 5 "worker-1" "stale" (alone ready_event) ≡ alone v)
    × (is_due (5 + 9 * 120) v ≡ true)
    × (v.attempts ≡ 0 + 9)
    × (v.max_attempts ≡ 8)
crashes_example = crashes_lem 9 120 5 "worker-1" "stale" ready_event due_now

schedule_maintenance_once_example :
    schedule_maintenance configured 70000000 (schedule_maintenance configured 65000000 empty)
    ≡ schedule_maintenance configured 65000000 empty
schedule_maintenance_once_example =
    schedule_maintenance_once configured configured 65000000 70000000 empty refl

abbrev delivered_event : OutboxEvent
delivered_event = record {
  event_type = "order.delivered";
  aggregate_type = "order";
  aggregate_id = 3;
  dedupe_key = record { prefix = "order.delivered"; id = 3; stamp = none };
}

-- An outbox with one event, which the service without settings has enqueued.
abbrev one_event : Table (Work OutboxEvent)
one_event = enqueue_event none 5 none (some 0) ready_event.subject empty

empty-IsOutbox : IsOutbox empty
unfolding get
empty-IsOutbox = record {
  queue = record { keyed = tt; sane = tt };
  once = λ j k v w at_j at_k same. absurd (ground arith);
}

one_event-IsOutbox : IsOutbox one_event
one_event-IsOutbox =
    (enqueue_event-IsOutbox none 5 none (some 0) ready_event.subject empty (omega arith)
      empty-IsOutbox).0

enqueue_event-IsOutbox_example :
    IsOutbox (enqueue_event (some configured) 6 (some 9) none delivered_event one_event)
    × Holds delivered_event one_event
        (enqueue_event (some configured) 6 (some 9) none delivered_event one_event)
enqueue_event-IsOutbox_example =
    enqueue_event-IsOutbox (some configured) 6 (some 9) none delivered_event one_event (omega arith)
      one_event-IsOutbox
