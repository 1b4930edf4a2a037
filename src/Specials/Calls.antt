-- ===== src/Specials/Calls.antt =====
-- The calls of a negotiation, in any order.
use baytna.Prelude.{subst, ℕ, String, ◌≡◌, refl, inl, inr, some, List, [], ◌∷◌, arith, Bool-cases}
use baytna.Prelude.Table.{Table, get, put, get-put, Keyed, empty, row}
use baytna.Entities.{SpecialOrderRequest}
use baytna.Entities.Status.{SpecialStatus}
use baytna.Session.{Db, Checked, Checked-cases, settle, ok}
use baytna.Settings.{Settings, Platform}
use baytna.Specials.{
  SpecialOrderCreateRequest, create_request, accept_counter_offer, end_order, cancel,
}
use baytna.Specials.Answers.{
  ChefAcceptRequest, chef_accept, ChefCounterOfferRequest, chef_counter_offer, chef_reject,
  expire_one, is_overdue, expire_rows, expire_due_requests,
}
use baytna.Specials.Capacity.{IsStaffed, lighter-IsStaffed}
use baytna.Specials.Staffing.{
  create_request-IsStaffed, chef_accept-IsStaffed, chef_counter_offer-IsStaffed,
  accept_counter_offer-IsStaffed, chef_reject-IsStaffed, cancel-IsStaffed,
}

pub data SpecialCall : Type 0 where
  requesting : ℕ → ℕ → SpecialOrderCreateRequest → SpecialCall
  quoting : ℕ → ℕ → ℕ → ChefAcceptRequest → SpecialCall
  countering : ℕ → ℕ → ℕ → ChefCounterOfferRequest → SpecialCall
  agreeing withdrawing : ℕ → ℕ → ℕ → SpecialCall
  declining : ℕ → ℕ → ℕ → String → SpecialCall
  lapsing : ℕ → SpecialCall

-- The handler behind a call: the instant first, then who calls, and the request.
unfoldable pub negotiate : Platform → Settings → SpecialCall → Db → Checked Db
negotiate platform settings (requesting now customer q) db =
    create_request platform settings now customer q db
negotiate platform settings (quoting now chef i q) db = chef_accept settings now chef i q db
negotiate platform settings (countering now chef i q) db =
    chef_counter_offer platform settings now chef i q db
negotiate platform settings (agreeing now customer i) db =
    accept_counter_offer settings now customer i db
negotiate platform settings (withdrawing now customer i) db = cancel now customer i db
negotiate platform settings (declining now chef i reason) db = chef_reject now chef i reason db
negotiate platform settings (lapsing now) db = ok (expire_due_requests now db)

unfoldable pub negotiate_all : Platform → Settings → List SpecialCall → Db → Db
negotiate_all platform settings [] db = db
negotiate_all platform settings (c ∷ cs) db =
    negotiate_all platform settings cs (settle db (negotiate platform settings c db))

-- The rows that a loop has still to visit are as the query found them.
abbrev pub Covers : Table SpecialOrderRequest → Db → Type 0
Covers t db = (k : ℕ) (r : SpecialOrderRequest) → get k t ≡ some r → get k db.specials ≡ some r

abbrev pub expired_row : SpecialOrderRequest → SpecialOrderRequest
expired_row r = record r { status = SpecialStatus.expired }

pub expire_one-written :
    (now id : ℕ) (r : SpecialOrderRequest) (db : Db)
    → ((expire_one now id r db).specials ≡ put id (expired_row r) db.specials)
      × ((expire_one now id r db).catalog ≡ db.catalog)
unfolding expire_one end_order
expire_one-written now id r db = (ground arith, ground arith)

expire_rows-IsStaffed :
    (now : ℕ) (t : Table SpecialOrderRequest) (db : Db)
    → Keyed (λ r. r.id) t
    → Covers t db
    → IsStaffed db
    → IsStaffed (expire_rows now t db)
unfolding expire_rows get
expire_rows-IsStaffed now empty db a covers g = g
expire_rows-IsStaffed now (row id r t) db a covers g = elim (Bool-cases (is_overdue now r)) [
  | inl overdue ↦
      let w = expire_one-written now id r db in
      let here : get id db.specials ≡ some r = covers id r (ground arith) in
      subst IsStaffed {x = expire_rows now t (expire_one now id r db)} (ground arith) (
        expire_rows-IsStaffed now t (expire_one now id r db) a.2
          (λ k s h. ground (arith, w.0, get-put id k (expired_row r) db.specials, covers k s, a.1))
          (lighter-IsStaffed id r (expired_row r) db (expire_one now id r db) g here refl w.0 w.1
            (λ c d. ground arith)))
  | inr in_time ↦
      subst IsStaffed {x = expire_rows now t db} (ground arith)
        (expire_rows-IsStaffed now t db a.2 (λ k s h. ground (arith, covers k s, a.1)) g)
]

negotiate-IsStaffed :
    (platform : Platform) (settings : Settings) (c : SpecialCall) (db db' : Db)
    → negotiate platform settings c db ≡ ok db'
    → IsStaffed db
    → IsStaffed db'
unfolding negotiate expire_due_requests
negotiate-IsStaffed platform settings (requesting now customer q) db db' h g =
    create_request-IsStaffed now db db' g platform settings customer q h
negotiate-IsStaffed platform settings (quoting now chef i q) db db' h g =
    chef_accept-IsStaffed now db db' g i settings chef q h
negotiate-IsStaffed platform settings (countering now chef i q) db db' h g =
    chef_counter_offer-IsStaffed now db db' g i platform settings chef q h
negotiate-IsStaffed platform settings (agreeing now customer i) db db' h g =
    accept_counter_offer-IsStaffed now db db' g i settings customer h
negotiate-IsStaffed platform settings (withdrawing now customer i) db db' h g =
    cancel-IsStaffed now db db' g i customer h
negotiate-IsStaffed platform settings (declining now chef i reason) db db' h g =
    chef_reject-IsStaffed now db db' g i chef reason h
negotiate-IsStaffed platform settings (lapsing now) db db' h g =
    subst IsStaffed {x = expire_rows now db.specials db} (ground arith)
      (expire_rows-IsStaffed now db.specials db g.keyed (λ k r e. e) g)

-- Whatever is asked, quoted, countered, accepted, rejected, cancelled or left to expire, and in whatever
-- order: where no chef had more special orders for a day than the capacity of that day, none gets more.
pub negotiate_all-IsStaffed :
    (platform : Platform) (settings : Settings) (cs : List SpecialCall) (db : Db)
    → IsStaffed db
    → IsStaffed (negotiate_all platform settings cs db)
unfolding negotiate_all
negotiate_all-IsStaffed platform settings [] db g = g
negotiate_all-IsStaffed platform settings (c ∷ cs) db g =
    elim (Checked-cases (negotiate platform settings c db)) [
      | inl (e, raised) ↦ rw raised (negotiate_all-IsStaffed platform settings cs db g)
      | inr (db', done) ↦ rw done (
          negotiate_all-IsStaffed platform settings cs db'
            (negotiate-IsStaffed platform settings c db db' done g))
    ]
