-- ===== src/Repositories/Outbox/Found.antt =====
-- The events of the outbox by their ids: app/repositories/outbox.py.
use async_payment_processing.Prelude.{
  ℕ, ◌≡◌, refl, inl, inr, false, Option, none, some, List, [], ◌∷◌, ◌++◌, if◌then◌else◌, ◌==◌,
  arith, All, All-imp, All-append, Bool-cases, is_some, ◌∙◌,
}
use async_payment_processing.Models.{OutboxEvent}
use async_payment_processing.Repositories.Outbox.{has_event, mark_published}
use async_payment_processing.Services.Relay.Delivery.{mark_all}

-- The row with this primary key.
unfoldable pub find_event : ℕ → List OutboxEvent → Option OutboxEvent
find_event k [] = none
find_event k (e ∷ es) = if e.id == k then some e else find_event k es

pub find_event-id :
    (k : ℕ) (es : List OutboxEvent) (e : OutboxEvent) → find_event k es ≡ some e → e.id ≡ k
unfolding find_event
find_event-id k [] e h = cc
find_event-id k (x ∷ es) e h = ground (arith, find_event-id k es e)

find_event-has_event : (k : ℕ) (es : List OutboxEvent) → is_some (find_event k es) ≡ has_event k es
unfolding find_event has_event
find_event-has_event k [] = refl
find_event-has_event k (e ∷ es) = ground (arith, find_event-has_event k es)

-- A row that is added is found under its id, if no other has it, and all others as before.
pub find_event-append :
    (k : ℕ) (es : List OutboxEvent) (e : OutboxEvent)
    → has_event e.id es ≡ false
    → find_event k (es ++ e ∷ []) ≡ (if e.id == k then some e else find_event k es)
unfolding find_event has_event
find_event-append k [] e h = refl
find_event-append k (x ∷ es) e h = ground (arith, h, find_event-append k es e)

-- A mark leaves the other rows, and keeps all but the date of its own.
find_event-mark_published :
    (now j k : ℕ) (es : List OutboxEvent) (e' : OutboxEvent)
    → find_event k (mark_published now j es) ≡ some e'
    → (e : OutboxEvent) × (find_event k es ≡ some e)
      × (e'.event_type ≡ e.event_type)
      × (e'.payment_id ≡ e.payment_id)
      × ((j == k) ≡ false → e' ≡ e)
unfolding find_event mark_published
find_event-mark_published now j k [] e' h = absurd (ground arith)
find_event-mark_published now j k (e ∷ es) e' h = elim (Bool-cases (e.id == k)) [
  | inl a ↦ elim (Bool-cases (e.id == j)) [
    | inl b ↦ (e, rw a, ground (arith, h), ground (arith, h), λ other. absurd (ground arith))
    | inr b ↦ (e, rw a, ground (arith, h), ground (arith, h), λ other. ground (arith, h))
  ]
  | inr a ↦
      let (x, f, t, p, same) = find_event-mark_published now j k es e' (ground (arith, h)) in
      (x, rw a f, t, p, same)
]

-- The marks of a batch leave each row that is not of it, and keep all but the date of the others.
pub find_event-mark_all :
    (now k : ℕ) (batch es : List OutboxEvent) (e' : OutboxEvent)
    → find_event k (mark_all now batch es) ≡ some e'
    → (e : OutboxEvent) × (find_event k es ≡ some e)
      × (e'.event_type ≡ e.event_type)
      × (e'.payment_id ≡ e.payment_id)
      × (has_event k batch ≡ false → e' ≡ e)
unfolding has_event
find_event-mark_all now k [] es e' h = (e', h, refl, refl, λ q. refl)
find_event-mark_all now k (x ∷ batch) es e' h =
    let (e, f, t, p, same) = find_event-mark_all now k batch (mark_published now x.id es) e' h in
    let (e0, f0, t0, p0, same0) = find_event-mark_published now x.id k es e f in
    (e0, f0, t ∙ t0, p ∙ p0, λ other. same (ground arith) ∙ same0 (ground arith))

-- Each row is the one that is found under its id: the ids are unique.
abbrev pub AllFound : List OutboxEvent → Type 0
AllFound es = All (λ e. find_event e.id es ≡ some e) es

AllFound-keeps :
    (es es' : List OutboxEvent)
    → ((k : ℕ) (e : OutboxEvent) → find_event k es ≡ some e → find_event k es' ≡ some e)
    → (xs : List OutboxEvent) → All (λ e. find_event e.id es ≡ some e) xs
    → All (λ e. find_event e.id es' ≡ some e) xs
AllFound-keeps es es' keep xs h = All-imp (λ e f. keep e.id e f) xs h

pub AllFound-append :
    (es : List OutboxEvent) (e : OutboxEvent)
    → has_event e.id es ≡ false
    → AllFound es
    → AllFound (es ++ e ∷ [])
AllFound-append es e fresh h =
    All-append (λ x. find_event x.id (es ++ e ∷ []) ≡ some x) es (e ∷ [])
      (AllFound-keeps es (es ++ e ∷ [])
        (λ k x f.
          ground (arith, find_event-append k es e fresh, find_event-has_event k es, fresh, f))
        es h)
      (ground (arith, find_event-append e.id es e fresh), tt)

find_event-marked :
    (now j k : ℕ) (es : List OutboxEvent) (e : OutboxEvent)
    → find_event k es ≡ some e
    → find_event k (mark_published now j es)
      ≡ some (if e.id == j then record e { published_at = some now } else e)
unfolding find_event mark_published
find_event-marked now j k [] e h = absurd (ground arith)
find_event-marked now j k (x ∷ es) e h = elim (Bool-cases (x.id == k)) [
  | inl a ↦ elim (Bool-cases (x.id == j)) [ inl b ↦ ground (arith, h) | inr b ↦ ground (arith, h) ]
  | inr a ↦
      let rest = find_event-marked now j k es e (ground (arith, h)) in
      elim (Bool-cases (x.id == j)) [ inl b ↦ rw (b, a) rest | inr b ↦ rw (b, a) rest ]
]

mark_published-AllFound :
    (now j : ℕ) (es xs : List OutboxEvent)
    → All (λ e. find_event e.id es ≡ some e) xs
    → All (λ e. find_event e.id (mark_published now j es) ≡ some e) (mark_published now j xs)
unfolding mark_published
mark_published-AllFound now j es [] h = tt
mark_published-AllFound now j es (x ∷ xs) (f, h) = elim (Bool-cases (x.id == j)) [
  | inl b ↦
      rw b (rw b at (find_event-marked now j x.id es x f), mark_published-AllFound now j es xs h)
  | inr b ↦
      rw b (rw b at (find_event-marked now j x.id es x f), mark_published-AllFound now j es xs h)
]

pub mark_all-AllFound :
    (now : ℕ) (batch es : List OutboxEvent) → AllFound es → AllFound (mark_all now batch es)
mark_all-AllFound now [] es h = h
mark_all-AllFound now (x ∷ batch) es h =
    mark_all-AllFound now batch (mark_published now x.id es)
      (mark_published-AllFound now x.id es es h)
