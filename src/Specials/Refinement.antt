-- ===== src/Specials/Refinement.antt =====
-- A negotiation refines the transitions of its requests.
use baytna.Prelude.{subst, ℕ, ◌≡◌, ◌⊎◌, inl, inr, Option, some, arith, ◌==◌, Bool-cases}
use baytna.Prelude.Table.{Table, get, get-put, Keyed, empty, row}
use baytna.Entities.{SpecialOrderRequest}
use baytna.Entities.Status.{SpecialStatus, SpecialStatus-discrete}
use baytna.Reliability.Queue.{waits}
use baytna.Session.{Db, ok}
use baytna.Settings.{Settings, Platform}
use baytna.Specials.Answers.{expire_one, is_overdue, expire_rows, expire_due_requests}
use baytna.Specials.Calls.{
  SpecialCall, negotiate, Covers, expired_row, expire_one-written, requesting, quoting, countering,
  agreeing, withdrawing, declining, lapsing,
}
use baytna.Specials.Capacity.{IsStaffed}
use baytna.Specials.Steps.{
  Follows, create_request-Follows, chef_accept-Follows, chef_counter_offer-Follows,
  accept_counter_offer-Follows, chef_reject-Follows, cancel-Follows,
}

-- A request is as it was, or its offer has run out.
abbrev Lapses : SpecialOrderRequest → Option SpecialOrderRequest → Type 0
Lapses r o =
    (o ≡ some r) ⊎ ((r.status ≡ SpecialStatus.awaiting_payment) × (o ≡ some (expired_row r)))

expire_rows-Lapses :
    (now : ℕ) (t : Table SpecialOrderRequest) (db : Db)
    → Keyed (λ r. r.id) t
    → Covers t db
    → (k : ℕ) (r : SpecialOrderRequest) → get k db.specials ≡ some r
    → Lapses r (get k (expire_rows now t db).specials)
unfolding expire_rows get
expire_rows-Lapses now empty db a covers k r h = inl h
expire_rows-Lapses now (row id q t) db a covers k r h = elim (Bool-cases (is_overdue now q)) [
  | inr in_time ↦
      subst (λ d. Lapses r (get k d.specials)) {x = expire_rows now t db}
        {y = expire_rows now (row id q t) db} (ground arith)
        (expire_rows-Lapses now t db a.2 (λ j s e. ground (arith, covers j s, a.1)) k r h)
  | inl overdue ↦
      let db1 = expire_one now id q db in
      let w = expire_one-written now id q db in
      let onward : Covers t db1 =
        λ j s e. ground (arith, w.0, get-put id j (expired_row q) db.specials, covers j s, a.1) in
      subst (λ d. Lapses r (get k d.specials)) {x = expire_rows now t db1}
        {y = expire_rows now (row id q t) db} (ground arith)
        (elim (Bool-cases (id == k)) [
          | inl here ↦
              let mine : r ≡ q = ground (arith, covers id q) in
              elim (expire_rows-Lapses now t db1 a.2 onward k (expired_row q)
                (ground (arith, w.0, get-put id k (expired_row q) db.specials))) [
                  | inl stays ↦ inr (ground arith, ground arith)
                  | inr (wrong, _) ↦ absurd (ground (arith, wrong))
                ]
          | inr there ↦
              expire_rows-Lapses now t db1 a.2 onward k r
                (ground (arith, w.0, get-put id k (expired_row q) db.specials))
        ])
]

expire_due_requests-Follows :
    (now : ℕ) (db : Db) → IsStaffed db → Follows db (expire_due_requests now db)
unfolding expire_due_requests SpecialStatus-discrete
expire_due_requests-Follows now db g k r h =
    elim (expire_rows-Lapses now db.specials db g.keyed (λ j s e. e) k r h) [
      | inl same ↦ ground (arith, same)
      | inr (waits, lapsed) ↦ ground (arith, waits, lapsed)
    ]

-- Where the requests stand under their identifiers and the days within their capacity, a call that
-- succeeds keeps every request, with its customer and its chef, and its status stays or takes one step
-- of `may_become`.
pub negotiate-Follows :
    (platform : Platform) (settings : Settings) (c : SpecialCall) (db db' : Db)
    → IsStaffed db
    → negotiate platform settings c db ≡ ok db'
    → Follows db db'
unfolding negotiate
negotiate-Follows platform settings (requesting now customer q) db db' g h =
    create_request-Follows platform settings now customer q db db' h
negotiate-Follows platform settings (quoting now chef i q) db db' g h =
    chef_accept-Follows now i db db' settings chef q h
negotiate-Follows platform settings (countering now chef i q) db db' g h =
    chef_counter_offer-Follows now i db db' platform settings chef q h
negotiate-Follows platform settings (agreeing now customer i) db db' g h =
    accept_counter_offer-Follows now i db db' settings customer h
negotiate-Follows platform settings (withdrawing now customer i) db db' g h =
    cancel-Follows now i db db' customer h
negotiate-Follows platform settings (declining now chef i reason) db db' g h =
    chef_reject-Follows now i db db' chef reason h
negotiate-Follows platform settings (lapsing now) db db' g h =
    subst (Follows db) {x = expire_due_requests now db} {y = db'} (ground arith)
      (expire_due_requests-Follows now db g)
