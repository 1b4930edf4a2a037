-- ===== src/Reliability/Budget.antt =====
-- How often a queue's rows are attempted.
use baytna.Prelude.{
  subst, ℕ, ◌+◌, ◌-◌, ◌≤◌, ◌<◌, ◌≡◌, inl, inr, true, false, none, some, arith, ◌==◌, if◌then◌else◌,
  Bool-cases, Option-cases, String, ◌⊎◌,
}
use baytna.Prelude.Table.{Table, get, AllRows, tally, Keyed, empty, row}
use baytna.Reliability.Queue.{
  Worker, waits, is_due, next_due, claimed, finished, failed, marked, claim_one,
}
use baytna.Reliability.Rows.{WorkStatus, Work, Attempted}

module _ {A : Type 0} where
  -- A row that waits has attempts left, and one that was given up has used all of them.
  pub record IsSane (w : Work A) : Type 0 where
    pub attempts_left : waits w ≡ true → w.attempts < w.max_attempts
    pub used_up : w.status ≡ WorkStatus.dead_letter → w.attempts ≡ w.max_attempts

  -- The rows stand under their identifiers, and are sane.
  pub record IsQueue (t : Table (Work A)) : Type 0 where
    pub keyed : Keyed (λ w. w.id) t
    pub sane : AllRows IsSane t

  abbrev pub left : ℕ → Work A → ℕ
  left k w = if waits w then w.max_attempts - w.attempts else 0

  -- The attempts that the waiting rows have left.
  unfoldable pub budget : Table (Work A) → ℕ
  budget = tally left

  pub AllRows-get {κ} :
      (P : Work A → Type κ) (k : ℕ) (t : Table (Work A)) (w : Work A)
      → AllRows P t
      → get k t ≡ some w
      → P w
  unfolding get
  AllRows-get P k empty w a h = cc
  AllRows-get P k (row j v t) w a h = elim (Bool-cases (j == k)) [
    | inl here ↦ subst P {x = v} {y = w} (ground arith) a.0
    | inr there ↦ AllRows-get P k t w a.1 (ground arith)
  ]

  -- The row that is handed out is due, and is the one under its identifier.
  pub next_due-found :
      (now : ℕ) (t : Table (Work A)) (w : Work A)
      → Keyed (λ v. v.id) t
      → next_due now t ≡ some w
      → (get w.id t ≡ some w) × (is_due now w ≡ true)
  unfolding next_due get
  next_due-found now empty w a h = cc
  next_due-found now (row k v t) w a h = elim (Option-cases (next_due now t)) [
    | inl last ↦ ground (arith, a.0)
    | inr (u, more) ↦ ground (arith, a.0, a.1, next_due-found now t u a.2 more)
  ]

  -- Where nothing is handed out, nothing is due.
  pub next_due-none :
      (now : ℕ) (t : Table (Work A)) → next_due now t ≡ none → AllRows (λ w. is_due now w ≡ false) t
  unfolding next_due
  next_due-none now empty h = tt
  next_due-none now (row k v t) h = elim (Option-cases (next_due now t)) [
    | inl last ↦ (ground arith, next_due-none now t last)
    | inr (u, more) ↦ absurd (ground arith)
  ]

  -- What is handed out is the next row that is due, claimed.
  pub claim_one-cases :
      (now : ℕ) (worker_id : String) (t : Table (Work A))
      → ((claim_one now worker_id t ≡ none) × (next_due now t ≡ none))
        ⊎ ((w : Work A) × (claim_one now worker_id t ≡ some (claimed now worker_id w))
            × (next_due now t ≡ some w))
  unfolding claim_one
  claim_one-cases now worker_id t = elim (Option-cases (next_due now t)) [
    | inl nothing ↦ inl (ground arith, nothing)
    | inr (w, found) ↦ inr (w, ground arith, found)
  ]

  -- An attempt uses up one of the attempts left, and leaves the row sane.
  pub marked_lem :
      {S : Type 0} (worker : Worker A S) (now k : ℕ) (w : Work A) (done : Attempted S)
      → IsSane w
      → is_due now w ≡ true
      → let v = marked worker now (claimed now worker.worker_id w) done in
        IsSane v × (left k v + 1 ≤ left k w) × (v.id ≡ w.id)
  unfolding finished failed
  marked_lem worker now k w done s due =
      let few = s.attempts_left (ground arith) in
      (
        record { attempts_left = λ h. ground arith; used_up = λ h. ground arith },
        ground arith,
        ground arith,
      )
