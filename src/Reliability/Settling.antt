-- ===== src/Reliability/Settling.antt =====
-- Enough attempts settle every row of a queue.
use baytna.Prelude.{ℕ, ◌+◌, ◌*◌, ◌≤◌, ◌≡◌, true, false, List, [], ◌∷◌}
use baytna.Prelude.Table.{Table, AllRows}
use baytna.Reliability.Queue.{waits}
use baytna.Reliability.Rows.{Work}
use baytna.Settings.{second}

-- Instants that are at least the longest retry delay apart, the first not before the given one.
abbrev pub Spaced : ℕ → List ℕ → Type 0
Spaced from [] = Unit
Spaced from (now ∷ later) = (from ≤ now) × Spaced (now + 3600 * second) later

-- `len(instants)`
unfoldable pub length {ℓ} : {A : Type ℓ} → List A → ℕ
length [] = 0
length (a ∷ as') = length as' + 1

module _ {A : Type 0} where
  -- The rows that wait may be handed out at the instant.
  abbrev pub DueBy : ℕ → Work A → Type 0
  DueBy now w = waits w ≡ true → w.available_at ≤ now

  -- Every row is published, given up, or in the hands of another worker.
  abbrev pub IsSettled : Table (Work A) → Type 0
  IsSettled = AllRows (λ w. waits w ≡ false)
