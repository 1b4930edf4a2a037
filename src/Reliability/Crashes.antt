-- ===== src/Reliability/Crashes.antt =====
-- What becomes of a row whose worker dies.
use baytna.Prelude.{ℕ, zero, suc, ◌+◌, ◌*◌, String, ◌≡◌, refl, ap, ◌∙◌, true, none, some, arith}
use baytna.Prelude.Table.{Table, put, empty, row}
use baytna.Reliability.Queue.{is_due, next_due, claimed, claim_one, recovered, recover_stale}
use baytna.Reliability.Rows.{WorkStatus-discrete, Work}

module _ {A : Type 0} where
  -- A worker takes a row and dies; once its lock is stale, another worker recovers it.
  unfoldable pub crash : ℕ → ℕ → String → String → Table (Work A) → Table (Work A)
  crash stale_after now worker_id text t = elim (claim_one now worker_id t) [
    | none ↦ t
    | some w ↦ recover_stale now (now + stale_after) text (put w.id w t)
  ]

  unfoldable pub crashes : ℕ → ℕ → ℕ → String → String → Table (Work A) → Table (Work A)
  crashes zero stale_after now worker_id text t = t
  crashes (suc n) stale_after now worker_id text t =
      crashes n stale_after (now + stale_after) worker_id text
        (crash stale_after now worker_id text t)

  -- A row alone in its table.
  abbrev pub alone : Work A → Table (Work A)
  alone w = row w.id w empty

  -- What a crash makes of a row that is due.
  abbrev after_crash : ℕ → ℕ → String → String → Work A → Work A
  after_crash stale_after now worker_id text w =
      recovered (now + stale_after) text (claimed now worker_id w)

  crash-alone :
      (stale_after now : ℕ) (worker_id text : String) (w : Work A)
      → is_due now w ≡ true
      → crash stale_after now worker_id text (alone w)
        ≡ alone (after_crash stale_after now worker_id text w)
  unfolding crash claim_one next_due recover_stale put WorkStatus-discrete
  crash-alone stale_after now worker_id text w due = ground arith

  -- However many workers die over a row alone in its queue, and the lock is recovered each time, the row
  -- is due again: it has one attempt more for each, with the same maximum.
  pub crashes_lem :
      (n stale_after now : ℕ) (worker_id text : String) (w : Work A)
      → is_due now w ≡ true
      → (v : Work A) × (crashes n stale_after now worker_id text (alone w) ≡ alone v)
        × (is_due (now + n * stale_after) v ≡ true)
        × (v.attempts ≡ w.attempts + n)
        × (v.max_attempts ≡ w.max_attempts)
  unfolding crashes
  crashes_lem zero stale_after now worker_id text w due = (w, refl, ground arith, omega arith, refl)
  crashes_lem (suc n) stale_after now worker_id text w due =
      let v = after_crash stale_after now worker_id text w in
      let rest = crashes_lem n stale_after (now + stale_after) worker_id text v (ground arith) in
      (
        rest.0,
        ap (crashes n stale_after (now + stale_after) worker_id text)
              (crash-alone stale_after now worker_id text w due)
            ∙ rest.1,
        ground (arith, rest.2),
        ground (arith, rest.3),
        ground (arith, rest.4),
      )
