-- ===== src/Timing/Lateness.antt =====
-- What the lateness of a delivery means.
use baytna.Prelude.{ℕ, ◌+◌, ◌-◌, ◌*◌, ◌/◌, ◌<◌, ◌≡◌, some, arith}
use baytna.Settings.{second, minute}
use baytna.Timing.{at_least_one, evaluate}

-- A late delivery is reported with at least one minute. The minutes exceed the delay by less than
-- one minute, and fall short of it by less than one second.
pub evaluate_late_by :
    (deadline delivered_at : ℕ)
    → deadline < delivered_at
    → (m : ℕ) × ((evaluate (some deadline) delivered_at).late_by_minutes ≡ some m)
      × (0 < m)
      × (delivered_at < deadline + m * minute + second)
      × (deadline + m * minute < delivered_at + minute)
unfolding evaluate
evaluate_late_by deadline delivered_at h = (
  at_least_one ((delivered_at - deadline + 59 * second) / minute),
  ground arith,
  ground arith,
  ground arith,
  ground arith,
)
