-- ===== src/Reliability/Dedupe.antt =====
-- The outbox holds every event that is enqueued, and each dedupe key once.
use text.Mathlib.TextEquality.{eq_iff}
use text.Mathlib.TextPositions.{eq_refl}
use baytna.Prelude.{
  subst, ℕ, ◌<◌, ◌≡◌, refl, sym, inl, inr, true, false, Option, none, some, arith, Option-cases, ap,
  ◌∙◌, ◌==◌, Bool-cases,
}
use baytna.Prelude.Table.{
  Table, get, put, find, get-put, get-put_self, find-none, above, get-above, find-passes, get-find,
  AllRows-put, Keyed-put,
}
use baytna.Entities.{DedupeKey, OutboxEvent}
use baytna.Journal.{same_stamp, same_key}
use baytna.Reliability.Budget.{IsQueue, IsSane}
use baytna.Reliability.Outbox.{has_event, configured_attempts, new_event, enqueue_event}
use baytna.Reliability.Rows.{Work, WorkStatus}
use baytna.Settings.{Settings}

-- Rows with the same dedupe key are one row.
abbrev pub IsDistinct : Table (Work OutboxEvent) → Type 0
IsDistinct t =
    (j k : ℕ) (v w : Work OutboxEvent)
    → get j t ≡ some v
    → get k t ≡ some w
    → v.subject.dedupe_key ≡ w.subject.dedupe_key
    → j ≡ k

-- The rows of the outbox are in order, and no two of them have the same dedupe key.
pub record IsOutbox (t : Table (Work OutboxEvent)) : Type 0 where
  pub queue : IsQueue t
  pub once : IsDistinct t

-- The rows that were there are still there, as they were, and there is one with the key of the event.
pub record Holds (e : OutboxEvent) (t t' : Table (Work OutboxEvent)) : Type 0 where
  pub kept : (k : ℕ) (w : Work OutboxEvent) → get k t ≡ some w → get k t' ≡ some w
  pub id : ℕ
  pub event : Work OutboxEvent
  pub found : get id t' ≡ some event
  pub own_key : event.subject.dedupe_key ≡ e.dedupe_key

same_key_refl : (k : DedupeKey) → same_key k k ≡ true
same_key_refl k = elim (Option-cases k.stamp) [
  | inl unstamped ↦ ground (arith, eq_refl k.prefix)
  | inr (n, stamped) ↦ ground (arith, eq_refl k.prefix)
]

-- A search by a key that finds nothing has passed over every row with that key.
no_row_with :
    (key : DedupeKey) (t : Table (Work OutboxEvent)) (k : ℕ) (w : Work OutboxEvent)
    → find (λ v. same_key key v.subject.dedupe_key) t ≡ none
    → get k t ≡ some w
    → key ≡ w.subject.dedupe_key
    → false ≡ true
no_row_with key t k w missing there same =
    subst (λ j. same_key key j ≡ true → false ≡ true) {x = w.subject.dedupe_key} {y = key}
      (sym same)
      (λ h. ground (arith, find-none (λ v. same_key key v.subject.dedupe_key) t k w missing there))
      (same_key_refl key)

same_stamp-≡ : (a b : Option ℕ) → same_stamp a b ≡ true → a ≡ b
same_stamp-≡ none none h = refl
same_stamp-≡ none (some b) h = cc
same_stamp-≡ (some a) none h = cc
same_stamp-≡ (some a) (some b) h = ground arith

same_key-≡ : (j k : DedupeKey) → same_key j k ≡ true → j ≡ k
same_key-≡ j k h =
    let prefix = (eq_iff j.prefix k.prefix).0 (ground arith) in
    let stamp = same_stamp-≡ j.stamp k.stamp (ground arith) in
    let id : j.id ≡ k.id = ground arith in ground (arith, prefix, stamp, id)

put-IsDistinct :
    (n : ℕ) (u : Work OutboxEvent) (t : Table (Work OutboxEvent))
    → ((k : ℕ) (w : Work OutboxEvent)
        → get k t ≡ some w
        → u.subject.dedupe_key ≡ w.subject.dedupe_key
        → false ≡ true)
    → IsDistinct t
    → IsDistinct (put n u t)
put-IsDistinct n u t new' once j k v w at_j at_k same =
    let there_j = get-put n j u t in
    let there_k = get-put n k u t in
    elim (Bool-cases (n == j)) [
      | inl new_j ↦ elim (Bool-cases (n == k)) [
        | inl new_k ↦ ground arith
        | inr old_k ↦
            let clash = new' k w (ground arith) in
            let u_v : u ≡ v = ground arith in
            absurd (ground (arith, clash (ap (λ x. x.subject.dedupe_key) u_v ∙ same)))
      ]
      | inr old_j ↦ elim (Bool-cases (n == k)) [
        | inl new_k ↦
            let clash = new' j v (ground arith) in
            let u_w : u ≡ w = ground arith in
            absurd (ground (arith, clash (ap (λ x. x.subject.dedupe_key) u_w ∙ sym same)))
        | inr old_k ↦ once j k v w (ground arith) (ground arith) same
      ]
    ]

put-IsQueue :
    (w : Work OutboxEvent) (t : Table (Work OutboxEvent))
    → w.attempts < w.max_attempts
    → w.status ≡ WorkStatus.pending
    → IsQueue t
    → IsQueue (put w.id w t)
put-IsQueue w t some_left waiting q = record {
  keyed = Keyed-put (λ v. v.id) w.id w t refl q.keyed;
  sane =
      AllRows-put IsSane w.id w t
        (record { attempts_left = λ h. some_left; used_up = λ h. ground arith }) q.sane;
}

-- Where an event is given at least one attempt, enqueueing it keeps the outbox in order and its dedupe
-- keys without repetition, keeps every row as it was, and leaves a row with the event's key.
pub enqueue_event-IsOutbox :
    (settings : Option Settings) (now : ℕ) (available_at max_attempts : Option ℕ) (e : OutboxEvent)
    (t : Table (Work OutboxEvent))
    → 0 < configured_attempts settings max_attempts
    → IsOutbox t
    → let t' = enqueue_event settings now available_at max_attempts e t in
      IsOutbox t' × Holds e t t'
unfolding enqueue_event has_event
enqueue_event-IsOutbox settings now available_at max_attempts e t some_left o =
    elim (Option-cases (find (λ w. same_key e.dedupe_key w.subject.dedupe_key) t)) [
      | inl new' ↦
          let w = new_event settings (above t) now available_at max_attempts e in
          let fresh = get-above (above t) t (omega arith) in
          subst (λ t'. IsOutbox t' × Holds e t t') {x = put (above t) w t} (ground arith)
            (
              record {
                queue = put-IsQueue w t some_left refl o.queue;
                once =
                    put-IsDistinct (above t) w t
                      (λ k u there. no_row_with e.dedupe_key t k u new' there) o.once;
              },
              record {
                kept = λ k v there. ground (arith, fresh, get-put (above t) k w t);
                id = above t;
                event = w;
                found = get-put_self (above t) w t;
                own_key = refl;
              },
            )
      | inr (w, known) ↦
          subst (λ t'. IsOutbox t' × Holds e t t') {x = t} (ground arith)
            (
              o,
              record {
                kept = λ k v there. there;
                id = w.id;
                event = w;
                found =
                    get-find (λ v. v.id) (λ v. same_key e.dedupe_key v.subject.dedupe_key) w t
                      o.queue.keyed known;
                own_key = sym (
                    same_key-≡ e.dedupe_key w.subject.dedupe_key
                      (find-passes (λ v. same_key e.dedupe_key v.subject.dedupe_key) t w known));
              },
            )
    ]
