-- ===== src/Reliability/Queue.antt =====
-- The queue operations that `backend/app/modules/reliability/outbox.py` and `jobs.py` share.
use baytna.Prelude.{
  ℕ, ◌+◌, ◌-◌, ◌*◌, ◌^◌, String, Bool, true, false, ◌&&◌, ◌||◌, Option, none, some, List, [], ◌∷◌,
  ltb, leb, if◌then◌else◌, is_none, is_some,
}
use baytna.Prelude.Table.{Table, put, empty, row}
use baytna.Entities.Status.{
  ◌is◌, order_status, task_status, driver_status, stage_status, item_status, hold_status,
  payment_status, order_type_status, special_status, redemption_status,
}
use baytna.Inventory.{lesser}
use baytna.Reliability.Rows.{WorkStatus, Work, Attempted, work_status}
use baytna.Settings.{second}

-- `min(3600, base * 2 ** max(0, attempts - 1))` seconds
unfoldable pub retry_delay : ℕ → ℕ → ℕ
retry_delay base attempts = lesser 3600 (base * 2 ^ (attempts - 1)) * second

abbrev pub one_if : Bool → ℕ
one_if true = 1
one_if false = 0

-- How an attempt is made, and what its failure stamps.
pub record Worker (A S : Type 0) : Type 0 where
  pub worker_id : String
  pub base : ℕ
  pub stamps : ℕ → Option ℕ → Option ℕ
  pub attempt : ℕ → Work A → S → Attempted S

-- The counts of a batch, and the state and the rows after it.
pub record Batch (A S : Type 0) : Type 0 where
  pub state : S
  pub rows : Table (Work A)
  pub succeeded : ℕ
  pub failures : ℕ

module _ {A : Type 0} where
  -- `status IN ('pending', 'retry') AND available_at <= now`
  abbrev pub waits : Work A → Bool
  waits w = w.status is WorkStatus.pending || w.status is WorkStatus.retry

  abbrev pub is_due : ℕ → Work A → Bool
  is_due now w = waits w && leb w.available_at now

  -- The due row that was created first.
  unfoldable pub next_due : ℕ → Table (Work A) → Option (Work A)
  next_due now empty = none
  next_due now (row k w t) =
      let rest = next_due now t in
      if is_due now w
      then (elim rest [
        | none ↦ some w
        | some v ↦ if ltb v.created_at w.created_at then some v else some w
      ])
      else rest

  abbrev pub claimed : ℕ → String → Work A → Work A
  claimed now worker_id w = record w {
    status = WorkStatus.processing;
    attempts = w.attempts + 1;
    locked_at = some now;
    locked_by = some worker_id;
  }

  -- `claim_one`: the row as it is handed out.
  unfoldable pub claim_one : ℕ → String → Table (Work A) → Option (Work A)
  claim_one now worker_id t = elim (next_due now t) [
    | none ↦ none
    | some w ↦ some (claimed now worker_id w)
  ]

  -- `mark_published` and `mark_succeeded`, on the row.
  unfoldable pub finished : ℕ → Work A → Work A
  finished now w = record w {
    status = WorkStatus.published;
    done_at = some now;
    locked_at = none;
    locked_by = none;
    last_error = none;
  }

  -- `mark_failed`, on the row; only `jobs.py` stamps a row that is given up.
  unfoldable pub failed : ℕ → (ℕ → Option ℕ → Option ℕ) → ℕ → String → Work A → Work A
  unfolding retry_delay
  failed base stamps now text w =
      if leb w.max_attempts w.attempts
      then record w {
        status = WorkStatus.dead_letter;
        done_at = stamps now w.done_at;
        locked_at = none;
        locked_by = none;
        last_error = some text;
      }
      else record w {
        status = WorkStatus.retry;
        available_at = now + retry_delay base w.attempts;
        locked_at = none;
        locked_by = none;
        last_error = some text;
      }

  -- `status = 'processing' AND locked_at IS NOT NULL AND locked_at <= cutoff`
  abbrev pub is_stale : ℕ → Work A → Bool
  is_stale cutoff w =
      w.status is WorkStatus.processing
      && (elim w.locked_at [ none ↦ false | some t ↦ leb t cutoff ])

  abbrev pub recovered : ℕ → String → Work A → Work A
  recovered now text w = record w {
    status = WorkStatus.retry;
    available_at = now;
    locked_at = none;
    locked_by = none;
    last_error = some text;
  }

  -- `recover_stale`, with its cutoff and the text that it notes.
  unfoldable pub recover_stale : ℕ → ℕ → String → Table (Work A) → Table (Work A)
  recover_stale cutoff now text empty = empty
  recover_stale cutoff now text (row k w t) =
      row k (if is_stale cutoff w then recovered now text w else w)
        (recover_stale cutoff now text t)

  -- The row after an attempt.
  abbrev pub marked : {S : Type 0} → Worker A S → ℕ → Work A → Attempted S → Work A
  marked worker now w done = elim done.error [
    | none ↦ finished now w
    | some text ↦ failed worker.base worker.stamps now text w
  ]

  -- `publish_due` and `run_due`: one attempt for each iteration, which reads the clock as one instant,
  -- until nothing is due.
  unfoldable pub run_due : {S : Type 0} → Worker A S → List ℕ → S → Table (Work A) → Batch A S
  run_due worker [] s t = record { state = s; rows = t; succeeded = 0; failures = 0 }
  run_due worker (now ∷ later) s t = elim (claim_one now worker.worker_id t) [
    | none ↦ record { state = s; rows = t; succeeded = 0; failures = 0 }
    | some w ↦
        let done = worker.attempt now w s in
        let rest = run_due worker later done.state (put w.id (marked worker now w done) t) in
        record {
          state = rest.state;
          rows = rest.rows;
          succeeded = one_if (is_none done.error) + rest.succeeded;
          failures = one_if (is_some done.error) + rest.failures;
        }
  ]
