-- ===== src/Reliability/Jobs.antt =====
-- The background jobs (`backend/app/modules/reliability/jobs.py`).
use text.Mathlib.Text.{◌==◌ as str_eq}
use baytna.Prelude.{
  ℕ, ◌/◌, String, Bool, ◌&&◌, none, some, List, [], ◌∷◌, ◌++◌, map, ◌==◌, if◌then◌else◌, is_some,
  Option,
}
use baytna.Prelude.Table.{Table, put, find, above}
use baytna.Reliability.Queue.{Worker}
use baytna.Reliability.Rows.{WorkStatus, Work, Attempted, number_or, instant_or}
use baytna.Settings.{Settings, minute}

-- A job. Its idempotency key is its type followed by its time bucket, which `strftime` writes as a text.
pub record Job : Type 0 where
  pub job_type : String
  pub bucket : ℕ

abbrev pub same_job : Job → Job → Bool
same_job i j = str_eq i.job_type j.job_type && i.bucket == j.bucket

unfoldable pub has_job : Job → Table (Work Job) → Bool
has_job j t = is_some (find (λ w. same_job j w.subject) t)

abbrev pub new_job : Settings → ℕ → ℕ → Option ℕ → Option ℕ → Job → Work Job
new_job settings id now available_at max_attempts j = record {
  id = id;
  subject = j;
  status = WorkStatus.pending;
  attempts = 0;
  max_attempts = number_or max_attempts settings.background_job_max_attempts;
  available_at = instant_or available_at now;
  locked_at = none;
  locked_by = none;
  done_at = none;
  last_error = none;
  created_at = now;
}

-- `enqueue`
unfoldable pub enqueue_job :
    Settings → ℕ → Option ℕ → Option ℕ → Job → Table (Work Job) → Table (Work Job)
unfolding has_job
enqueue_job settings now available_at max_attempts j t =
    if has_job j t
    then t
    else put (above t) (new_job settings (above t) now available_at max_attempts j) t

unfoldable pub enqueue_jobs : Settings → ℕ → List Job → Table (Work Job) → Table (Work Job)
unfolding enqueue_job
enqueue_jobs settings now [] t = t
enqueue_jobs settings now (j ∷ js) t =
    enqueue_jobs settings now js (enqueue_job settings now none none j t)

-- The types of the jobs that are scheduled every minute.
abbrev pub maintenance : List String
maintenance =
    "maintenance.release_expired_holds" ∷ "maintenance.expire_special_orders"
    ∷ "maintenance.expire_pending_payments" ∷ "maintenance.cleanup_auth"
    ∷ "maintenance.cleanup_security" ∷ "notifications.dispatch" ∷ "notifications.reconcile"
    ∷ "payments.reconcile" ∷ "finance.settlements.reconcile" ∷ "expansion.monitor"
    ∷ "launch.command.maintain" ∷ "operations.scan" ∷ []

-- The number of an instant's minute, of which there are 1440 in a day.
abbrev pub minute_of : ℕ → ℕ
minute_of now = now / minute

abbrev in_bucket : ℕ → String → Job
in_bucket n job_type = record { job_type = job_type; bucket = n }

-- The jobs of a minute, and that of its day.
abbrev pub scheduled : ℕ → List Job
scheduled m = map (in_bucket m) maintenance ++ (in_bucket (m / 1440) "pilot.snapshot" ∷ [])

-- `schedule_maintenance`
unfoldable pub schedule_maintenance : Settings → ℕ → Table (Work Job) → Table (Work Job)
unfolding enqueue_jobs
schedule_maintenance settings now t = enqueue_jobs settings now (scheduled (minute_of now)) t

-- The worker of `run_due`; what a job does is given. A job that is given up is stamped.
unfoldable pub job_worker :
    {S : Type 0} → Settings → String → (ℕ → Work Job → S → Attempted S) → Worker Job S
job_worker settings worker_id execute = record {
  worker_id = worker_id;
  base = settings.retry_base_seconds;
  stamps = λ now finished_at. some now;
  attempt = execute;
}
