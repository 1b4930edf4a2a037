-- ===== src/Reliability/Progress.antt =====
-- A batch makes only so many attempts, and enough of them settle every row.
use baytna.Prelude.{ℕ, ◌+◌, ◌≤◌, ◌≡◌, inl, inr, some, List, [], ◌∷◌, arith, none, is_none, is_some}
use baytna.Prelude.Table.{Table, put, AllRows-put, tally-put, Keyed-put}
use baytna.Reliability.Budget.{
  IsSane, IsQueue, left, budget, AllRows-get, next_due-found, claim_one-cases, marked_lem,
}
use baytna.Reliability.Queue.{Worker, next_due, claimed, marked, run_due, one_if, claim_one}
use baytna.Reliability.Rows.{Work}

module _ {A S : Type 0} (worker : Worker A S) where
  -- One iteration that finds a row.
  pub step_lem :
      (now : ℕ) (s : S) (t : Table (Work A)) (w : Work A)
      → IsQueue t
      → next_due now t ≡ some w
      → let c = claimed now worker.worker_id w in
        let t' = put w.id (marked worker now c (worker.attempt now c s)) t in
        IsQueue t' × (budget t' + 1 ≤ budget t)
  unfolding budget
  step_lem now s t w q h =
      let c = claimed now worker.worker_id w in
      let done = worker.attempt now c s in
      let v = marked worker now c done in
      let found = next_due-found now t w q.keyed h in
      let sane = AllRows-get IsSane w.id t w q.sane found.0 in
      let m = marked_lem worker now w.id w done sane found.1 in
      (
        record {
          keyed = Keyed-put (λ u. u.id) w.id v t m.2 q.keyed;
          sane = AllRows-put IsSane w.id v t m.0 q.sane;
        },
        ground (arith, tally-put left w.id v t, found.0, m.1),
      )

  -- A batch that finds nothing, and one that attempts a row.
  pub run_due-none :
      (now : ℕ) (later : List ℕ) (s : S) (t : Table (Work A))
      → claim_one now worker.worker_id t ≡ none
      → run_due worker (now ∷ later) s t
        ≡ record { state = s; rows = t; succeeded = 0; failures = 0 }
  unfolding run_due
  run_due-none now later s t h = ground arith

  pub run_due-some :
      (now : ℕ) (later : List ℕ) (s : S) (t : Table (Work A)) (c : Work A)
      → claim_one now worker.worker_id t ≡ some c
      → let done = worker.attempt now c s in
        let rest = run_due worker later done.state (put c.id (marked worker now c done) t) in
        run_due worker (now ∷ later) s t ≡ record {
          state = rest.state;
          rows = rest.rows;
          succeeded = one_if (is_none done.error) + rest.succeeded;
          failures = one_if (is_some done.error) + rest.failures;
        }
  unfolding run_due
  run_due-some now later s t c h = ground arith

  -- However long a batch is, it keeps the queue in order, and its successes and failures come out of the
  -- attempts that the waiting rows had left.
  pub run_due-budget :
      (instants : List ℕ) (s : S) (t : Table (Work A))
      → IsQueue t
      → let b = run_due worker instants s t in
        IsQueue b.rows × (b.succeeded + b.failures + budget b.rows ≤ budget t)
  unfolding run_due
  run_due-budget [] s t q = (q, omega arith)
  run_due-budget (now ∷ later) s t q = elim (claim_one-cases now worker.worker_id t) [
    | inl (stop, nothing) ↦ rw (run_due-none now later s t stop) (q, omega arith)
    | inr (w, taken, found) ↦
        let c = claimed now worker.worker_id w in
        let done = worker.attempt now c s in
        let step = step_lem now s t w q found in
        let rest = run_due-budget later done.state (put w.id (marked worker now c done) t) step.0 in
        rw (run_due-some now later s t c taken) (rest.0, ground (arith, rest.1, step.1))
  ]
