-- ===== src/Specials/Capacity.antt =====
-- A chef's special orders of a day stay within the chef's capacity.
use baytna.Prelude.{
  ℕ, ◌+◌, ◌≤◌, String, ◌≡◌, ◌∙◌, inl, inr, Option, none, some, arith, ◌==◌, Bool-cases,
}
use baytna.Prelude.Table.{
  Table, get, put, tally, weigh, tally-put, tally-away, Keyed, Keyed-get, Keyed-put, empty, row,
}
use baytna.Entities.{SpecialOrderRequest}
use baytna.Session.{Db, ok}
use baytna.Specials.Schedule.{
  Rule, schedule_rule, effective_date, capacity_weight, capacity_used, ensure_schedulable,
}

-- The requests stand under their identifiers, and no day of a chef has more of them than its capacity.
pub record IsStaffed (db : Db) : Type 0 where
  pub keyed : Keyed (λ r. r.id) db.specials
  pub within :
      (c d : ℕ) → capacity_used c d none db.specials ≤ (schedule_rule c d db.catalog).capacity

-- An operation that leaves the requests and the schedules as they are.
pub same-IsStaffed :
    {db db' : Db}
    → db'.specials ≡ db.specials
    → db'.catalog ≡ db.catalog
    → IsStaffed db
    → IsStaffed db'
same-IsStaffed s c g = record { keyed = rw s g.keyed; within = λ x y. rw (s, c) (g.within x y) }

-- What is counted without a request, and the request itself, is what is counted.
excluded_lem :
    (c d k : ℕ) (t : Table SpecialOrderRequest)
    → Keyed (λ r. r.id) t
    → capacity_used c d none t
      ≡ capacity_used c d (some k) t + weigh (capacity_weight c d none) k (get k t)
unfolding capacity_used tally get
excluded_lem c d k empty a = omega arith
excluded_lem c d k (row j r t) a = elim (Bool-cases (j == k)) [
  | inl here ↦ ground (
    arith,
    tally-away (capacity_weight c d none) (capacity_weight c d (some k)) k t (ground (arith, a.1))
        (λ i v far. ground arith),
  )
  | inr there ↦ ground (arith, excluded_lem c d k t a.2)
]

pub ensure_schedulable-room :
    (chef date : ℕ) (lower upper : Option String) (excluded : Option ℕ) (db : Db) (rule : Rule)
    → ensure_schedulable chef date lower upper excluded db ≡ ok rule
    → capacity_used chef date excluded db.specials + 1
      ≤ (schedule_rule chef date db.catalog).capacity
unfolding ensure_schedulable
ensure_schedulable-room chef date lower upper excluded db rule h = ground arith

module _ (id : ℕ) (old new : SpecialOrderRequest) (db db' : Db) (g : IsStaffed db)
    (found : get id db.specials ≡ some old) (same_id : new.id ≡ old.id)
    (written : db'.specials ≡ put id new db.specials) (catalog : db'.catalog ≡ db.catalog) where
  rekeyed : Keyed (λ r. r.id) db'.specials
  rekeyed = rw written (
      Keyed-put (λ r. r.id) id new db.specials
        (same_id ∙ Keyed-get (λ r. r.id) id old db.specials g.keyed found) g.keyed)

  -- A request that counts nowhere where it did not count before.
  pub lighter-IsStaffed :
      ((c d : ℕ) → capacity_weight c d none id new ≤ capacity_weight c d none id old)
      → IsStaffed db'
  unfolding capacity_used
  lighter-IsStaffed lighter = record {
    keyed = rekeyed;
    within = λ c d.
        rw (written, catalog)
          (ground (
            arith,
            found,
            tally-put (capacity_weight c d none) id new db.specials,
            g.within c d,
            lighter c d,
          ));
  }

  -- A request for a day that has room beside it.
  pub fitting-IsStaffed :
      (chef date : ℕ)
      → new.chef_id ≡ chef
      → effective_date new ≡ date
      → capacity_used chef date (some id) db.specials + 1
        ≤ (schedule_rule chef date db.catalog).capacity
      → IsStaffed db'
  unfolding capacity_used
  fitting-IsStaffed chef date chef' date' room = record {
    keyed = rekeyed;
    within = λ c d.
        rw (written, catalog)
          (ground (
            arith,
            found,
            tally-put (capacity_weight c d none) id new db.specials,
            g.within c d,
            excluded_lem c d id db.specials g.keyed,
          ));
  }
