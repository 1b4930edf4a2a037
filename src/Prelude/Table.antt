-- ===== src/Prelude/Table.antt =====
-- A database table: rows under their primary keys, in insertion order.
use Prim.Native.Nat.{ℕ}
use mathlib.Core.Bool.{Bool, false}
use mathlib.Core.Logic.{inl, inr}
use mathlib.Core.Option.{Option, none, some}
use mathlib.Core.Path.{◌≡◌, refl, subst}
use native.Mathlib.Omega.{arith}
use baytna.Prelude.{◌+◌, sym, ◌≤◌, ◌⊎◌, true}
use baytna.Prelude.Tests.{◌==◌, if◌then◌else◌, Bool-cases, Option-cases}

pub data Table {ℓ} (V : Type ℓ) : Type ℓ where
  empty : Table V
  row : ℕ → V → Table V → Table V

module _ {ℓ} {V : Type ℓ} where
  -- `db.get(Entity, key)`
  unfoldable pub get : ℕ → Table V → Option V
  get k empty = none
  get k (row j v t) = if j == k then some v else get k t

  -- A new row, or new values for the row under the key.
  unfoldable pub put : ℕ → V → Table V → Table V
  put k v empty = row k v empty
  put k v (row j w t) = if j == k then row k v t else row j w (put k v t)

  -- `select(Entity).where(test)`, the first row.
  unfoldable pub find : (V → Bool) → Table V → Option V
  find p empty = none
  find p (row k v t) = if p v then some v else find p t

  -- The last row that passes, of rows in the order of their creation.
  unfoldable pub find_last : (V → Bool) → Table V → Option V
  find_last p empty = none
  find_last p (row k v t) = elim (find_last p t) [
    | some w ↦ some w
    | none ↦ if p v then some v else none
  ]

  pub get-put :
      (k j : ℕ) (v : V) (t : Table V) → get j (put k v t) ≡ (if k == j then some v else get j t)
  unfolding get put
  get-put k j v empty = refl
  get-put k j v (row i w t) = ground (arith, get-put k j v t)

  -- The last write to a key is what counts.
  pub put-put : (k : ℕ) (v w : V) (t : Table V) → put k v (put k w t) ≡ put k v t
  unfolding put
  put-put k v w empty = ground arith
  put-put k v w (row i u t) = ground (arith, put-put k v w t)

  pub get-put_self : (k : ℕ) (v : V) (t : Table V) → get k (put k v t) ≡ some v
  get-put_self k v t = ground (arith, get-put k k v t)

  -- Where a search finds nothing, no row of the table passes the test.
  pub find-none :
      (p : V → Bool) (t : Table V) (k : ℕ) (v : V)
      → find p t ≡ none
      → get k t ≡ some v
      → p v ≡ false
  unfolding find get
  find-none p empty k v h e = cc
  find-none p (row j w t) k v h e = elim (Bool-cases (p w)) [
    | inl passes ↦ absurd (ground arith)
    | inr fails ↦ elim (Bool-cases (j == k)) [
      | inl here ↦ ground arith
      | inr there ↦ find-none p t k v (ground arith) (ground arith)
    ]
  ]

  -- `delete(Entity).where(test)`
  unfoldable pub delete_where : (ℕ → V → Bool) → Table V → Table V
  delete_where p empty = empty
  delete_where p (row k v t) = let rest = delete_where p t in if p k v then rest else row k v rest

  pub get-delete_where :
      (p : ℕ → V → Bool) (k : ℕ) (t : Table V) (v : V)
      → get k (delete_where p t) ≡ some v
      → get k t ≡ some v ⊎ ((w : V) × (get k t ≡ some w) × (p k w ≡ true))
  unfolding delete_where get
  get-delete_where p k empty v h = inl h
  get-delete_where p k (row j w t) v h = elim (Bool-cases (j == k)) [
    | inl here ↦ elim (Bool-cases (p j w)) [
      | inl gone ↦ inr (w, ground arith, ground arith)
      | inr stays ↦ inl (ground arith)
    ]
    | inr there ↦ elim (get-delete_where p k t v (ground arith)) [
      | inl same ↦ inl (ground arith)
      | inr (u, found, gone) ↦ inr (u, ground arith, gone)
    ]
  ]

  -- A new row comes last.
  pub find-put_new :
      (p : V → Bool) (k : ℕ) (v : V) (t : Table V)
      → get k t ≡ none
      → find p (put k v t)
        ≡ (elim (find p t) [ none ↦ if p v then some v else none | some w ↦ some w ])
  unfolding find put get
  find-put_new p k v empty h = refl
  find-put_new p k v (row j w t) h = ground (arith, find-put_new p k v t)

  -- One more than any key of the table.
  unfoldable pub above : Table V → ℕ
  above empty = 0
  above (row k v t) = k + 1 + above t

  -- A key that no row has.
  pub get-above : (n : ℕ) (t : Table V) → above t ≤ n → get n t ≡ none
  unfolding above get
  get-above n empty h = refl
  get-above n (row k v t) h = ground (arith, get-above n t)

  -- The row that a search finds passes its test.
  pub find-passes : (p : V → Bool) (t : Table V) (v : V) → find p t ≡ some v → p v ≡ true
  unfolding find
  find-passes p empty v h = cc
  find-passes p (row k w t) v h = elim (Bool-cases (p w)) [
    | inl passes ↦ ground arith
    | inr fails ↦ find-passes p t v (ground arith)
  ]

  -- A statement about every row.
  abbrev pub AllRows {κ} : (V → Type κ) → Table V → Type κ
  AllRows P empty = Unit
  AllRows P (row k v t) = P v × AllRows P t

  pub AllRows-put {κ} :
      (P : V → Type κ) (k : ℕ) (v : V) (t : Table V) → P v → AllRows P t → AllRows P (put k v t)
  unfolding put
  AllRows-put P k v empty h a = (h, tt)
  AllRows-put P k v (row j w t) h a = elim (Bool-cases (j == k)) [
    | inl here ↦ rw here (h, a.1)
    | inr there ↦ rw there (a.0, AllRows-put P k v t h a.1)
  ]

  pub AllRows-find_last {κ} :
      (P : V → Type κ) (p : V → Bool) (t : Table V) (v : V)
      → AllRows P t
      → find_last p t ≡ some v
      → P v
  unfolding find_last
  AllRows-find_last P p empty v a h = cc
  AllRows-find_last P p (row j w t) v a h = elim (Option-cases (find_last p t)) [
    | inl none_later ↦ elim (Bool-cases (p w)) [
      | inl passes ↦ subst P {x = w} {y = v} (ground arith) a.0
      | inr fails ↦ absurd (ground arith)
    ]
    | inr (u, later) ↦ AllRows-find_last P p t v a.1 (ground arith)
  ]

  pub AllRows-find {κ} :
      (P : V → Type κ) (p : V → Bool) (t : Table V) (v : V) → AllRows P t → find p t ≡ some v → P v
  unfolding find
  AllRows-find P p empty v a h = cc
  AllRows-find P p (row j w t) v a h = elim (Bool-cases (p w)) [
    | inl passes ↦ subst P {x = w} {y = v} (ground arith) a.0
    | inr fails ↦ AllRows-find P p t v a.1 (ground arith)
  ]

  -- `select(func.sum(...))`: the weights of the rows, added up.
  unfoldable pub tally : (ℕ → V → ℕ) → Table V → ℕ
  tally f empty = 0
  tally f (row k v t) = f k v + tally f t

  abbrev pub weigh : (ℕ → V → ℕ) → ℕ → Option V → ℕ
  weigh f k none = 0
  weigh f k (some v) = f k v

  -- A write replaces the weight of the row.
  pub tally-put :
      (f : ℕ → V → ℕ) (k : ℕ) (v : V) (t : Table V)
      → tally f (put k v t) + weigh f k (get k t) ≡ tally f t + f k v
  unfolding tally put get
  tally-put f k v empty = omega arith
  tally-put f k v (row j w t) = ground (arith, tally-put f k v t)

  -- Weights that differ only at a key that no row has.
  pub tally-away :
      (f g : ℕ → V → ℕ) (k : ℕ) (t : Table V)
      → get k t ≡ none
      → ((j : ℕ) (v : V) → (j == k) ≡ false → f j v ≡ g j v)
      → tally f t ≡ tally g t
  unfolding tally get
  tally-away f g k empty h same = refl
  tally-away f g k (row j v t) h same = ground (arith, same j v, tally-away f g k t)

  -- A new row adds its weight.
  pub tally-new :
      (f : ℕ → V → ℕ) (k : ℕ) (v : V) (t : Table V)
      → get k t ≡ none
      → tally f (put k v t) ≡ tally f t + f k v
  tally-new f k v t h = ground (arith, tally-put f k v t)

  -- Every row stands under its own identifier, once.
  abbrev pub Keyed : (V → ℕ) → Table V → Type ℓ
  Keyed id empty = Unit
  Keyed id (row k v t) = (k ≡ id v) × (get k t ≡ none) × Keyed id t

  pub Keyed-get :
      (id : V → ℕ) (k : ℕ) (v : V) (t : Table V) → Keyed id t → get k t ≡ some v → id v ≡ k
  unfolding get
  Keyed-get id k v empty a h = cc
  Keyed-get id k v (row j w t) a h = ground (arith, Keyed-get id k v t a.2)

  pub Keyed-put :
      (id : V → ℕ) (k : ℕ) (v : V) (t : Table V) → id v ≡ k → Keyed id t → Keyed id (put k v t)
  unfolding put get
  Keyed-put id k v empty e a = (sym e, refl, tt)
  Keyed-put id k v (row j w t) e a = elim (Bool-cases (j == k)) [
    | inl here ↦ rw here (sym e, ground arith, a.2)
    | inr there ↦ rw there (a.0, ground (arith, get-put k j v t, a.1), Keyed-put id k v t e a.2)
  ]

  -- A row that a search finds is the one under its identifier.
  pub get-find :
      (id : V → ℕ) (p : V → Bool) (v : V) (t : Table V)
      → Keyed id t
      → find p t ≡ some v
      → get (id v) t ≡ some v
  unfolding find get
  get-find id p v empty a h = cc
  get-find id p v (row j w t) a h = elim (Bool-cases (p w)) [
    | inl passes ↦ ground (arith, a.0)
    | inr fails ↦ ground (arith, get-find id p v t a.2, a.1)
  ]
