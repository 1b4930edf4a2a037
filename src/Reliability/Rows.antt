-- ===== src/Reliability/Rows.antt =====
-- The rows of `outbox_events` and `background_jobs` (`backend/app/core/db_models.py`): the columns that
-- both tables have. The names of a status differ; `pending` is also `queued`, `processing` is `running`,
-- and `published` is `succeeded`. Only a job can be `cancelled`, which nothing in the modelled code writes.
use baytna.Prelude.{ℕ, String, Option, none, some, ◌==◌, if◌then◌else◌}
use baytna.Entities.Status.{Status}
use baytna.Scenarios.{configured}

pub data WorkStatus : Type 0 where
  pending processing retry published dead_letter cancelled : WorkStatus

unfoldable pub WorkStatus-discrete : Discrete WorkStatus
WorkStatus-discrete = hlevel

instance abbrev pub work_status : Status WorkStatus
work_status = record { decide = WorkStatus-discrete }

-- `done_at` is `published_at` or `finished_at`. The subject is what the row is about.
pub record Work (A : Type 0) : Type 0 where
  pub id : ℕ
  pub subject : A
  pub status : WorkStatus
  pub attempts : ℕ
  pub max_attempts : ℕ
  pub available_at : ℕ
  pub locked_at : Option ℕ
  pub locked_by : Option String
  pub done_at : Option ℕ
  pub last_error : Option String
  pub created_at : ℕ

-- `max_attempts or configured`: a number that is missing or zero is replaced.
abbrev pub number_or : Option ℕ → ℕ → ℕ
number_or none configured = configured
number_or (some n) configured = if n == 0 then configured else n

-- `available_at or utc_now()`
abbrev pub instant_or : Option ℕ → ℕ → ℕ
instant_or none now = now
instant_or (some t) now = t

-- What an attempt leaves of the rest of the program, and the text of its exception, if it raised one.
pub record Attempted (S : Type 0) : Type 0 where
  pub state : S
  pub error : Option String
