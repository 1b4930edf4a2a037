-- ===== src/Reliability/Schedule.antt =====
-- A minute's jobs are scheduled once.
use text.Mathlib.TextPositions.{eq_refl}
use baytna.Prelude.{subst, ℕ, ◌≡◌, refl, true, List, [], ◌∷◌, arith, sym, none}
use baytna.Prelude.Table.{Table, find-put_new, above, get-above}
use baytna.Reliability.Jobs.{
  Job, same_job, has_job, new_job, enqueue_job, enqueue_jobs, minute_of, scheduled,
  schedule_maintenance,
}
use baytna.Reliability.Rows.{Work}
use baytna.Settings.{Settings}

abbrev pub HasAll : List Job → Table (Work Job) → Type 0
HasAll [] t = Unit
HasAll (j ∷ js) t = (has_job j t ≡ true) × HasAll js t

enqueue_job-has :
    (settings : Settings) (now : ℕ) (j : Job) (t : Table (Work Job))
    → has_job j (enqueue_job settings now none none j t) ≡ true
unfolding enqueue_job has_job
enqueue_job-has settings now j t =
    let w = new_job settings (above t) now none none j in
    ground (
      arith,
      eq_refl j.job_type,
      find-put_new (λ v. same_job j v.subject) (above t) w t (get-above (above t) t (omega arith)),
    )

enqueue_job-keeps :
    (settings : Settings) (now : ℕ) (i j : Job) (t : Table (Work Job))
    → has_job i t ≡ true
    → has_job i (enqueue_job settings now none none j t) ≡ true
unfolding enqueue_job has_job
enqueue_job-keeps settings now i j t h =
    let w = new_job settings (above t) now none none j in
    ground (
      arith,
      find-put_new (λ v. same_job i v.subject) (above t) w t (get-above (above t) t (omega arith)),
    )

enqueue_jobs-keeps :
    (settings : Settings) (now : ℕ) (i : Job) (js : List Job) (t : Table (Work Job))
    → has_job i t ≡ true
    → has_job i (enqueue_jobs settings now js t) ≡ true
unfolding enqueue_jobs
enqueue_jobs-keeps settings now i [] t h = h
enqueue_jobs-keeps settings now i (j ∷ js) t h =
    enqueue_jobs-keeps settings now i js (enqueue_job settings now none none j t)
      (enqueue_job-keeps settings now i j t h)

enqueue_jobs-HasAll :
    (settings : Settings) (now : ℕ) (js : List Job) (t : Table (Work Job))
    → HasAll js (enqueue_jobs settings now js t)
unfolding enqueue_jobs
enqueue_jobs-HasAll settings now [] t = tt
enqueue_jobs-HasAll settings now (j ∷ js) t = (
  enqueue_jobs-keeps settings now j js (enqueue_job settings now none none j t)
      (enqueue_job-has settings now j t),
  enqueue_jobs-HasAll settings now js (enqueue_job settings now none none j t),
)

enqueue_jobs-again :
    (settings : Settings) (now : ℕ) (js : List Job) (t : Table (Work Job))
    → HasAll js t
    → enqueue_jobs settings now js t ≡ t
unfolding enqueue_jobs enqueue_job
enqueue_jobs-again settings now [] t h = refl
enqueue_jobs-again settings now (j ∷ js) t h =
    ground (arith, h.0, enqueue_jobs-again settings now js t h.1)

-- Jobs that are scheduled again in the same minute are not scheduled a second time, whichever worker
-- asks.
pub schedule_maintenance_once :
    (settings settings' : Settings) (now later : ℕ) (t : Table (Work Job))
    → minute_of later ≡ minute_of now
    → schedule_maintenance settings' later (schedule_maintenance settings now t)
      ≡ schedule_maintenance settings now t
unfolding schedule_maintenance
schedule_maintenance_once settings settings' now later t same =
    enqueue_jobs-again settings' later (scheduled (minute_of later))
      (schedule_maintenance settings now t)
      (subst (λ m. HasAll (scheduled m) (schedule_maintenance settings now t)) {x = minute_of now}
        {y = minute_of later} (sym same)
        (enqueue_jobs-HasAll settings now (scheduled (minute_of now)) t))
