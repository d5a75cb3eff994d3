-- ===== src/System/Known.antt =====
-- Messages about events of the outbox: app/schemas/event.py and app/models/outbox_event.py.
use async_payment_processing.Prelude.{
  ℕ, ◌≤◌, ◌≡◌, refl, ◌∙◌, inl, inr, Bool, true, false, ◌&&◌, not, some, List, [], ◌∷◌, ◌++◌, arith,
  if◌then◌else◌, ◌==◌, Bool-cases, tally, leb,
}
use native.Mathlib.Bridge.{le_prop}
use mathlib.Core.List.{Mem, not-mem-nil, eq-or-mem_of_mem-cons}
use mathlib.Core.Logic.Or
use async_payment_processing.Schemas.{
  EventType, EventEnvelope, payment_process_requested, webhook_delivery_requested,
}
use async_payment_processing.Models.{OutboxEvent}
use async_payment_processing.Repositories.Outbox.{has_event, mark_published}
use async_payment_processing.Repositories.Outbox.Found.{find_event, find_event-id}
use async_payment_processing.Services.Relay.Delivery.{mark_all}

abbrev pub same_type : EventType → EventType → Bool
same_type payment_process_requested payment_process_requested = true
same_type webhook_delivery_requested webhook_delivery_requested = true
same_type _ _ = false

-- The event that the message names is in the outbox, of its type and about its payment.
unfoldable pub is_known : List OutboxEvent → EventEnvelope → Bool
is_known [] m = false
is_known (e ∷ es) m =
    if e.id == m.event_id
    then same_type e.event_type m.event_type && (e.payment_id == m.payment_id)
    else is_known es m

abbrev pub is_strange : List OutboxEvent → EventEnvelope → Bool
is_strange es m = not (is_known es m)

same_type-eq : (s t : EventType) → same_type s t ≡ true → t ≡ s
same_type-eq payment_process_requested payment_process_requested h = refl
same_type-eq payment_process_requested webhook_delivery_requested h = cc
same_type-eq webhook_delivery_requested payment_process_requested h = cc
same_type-eq webhook_delivery_requested webhook_delivery_requested h = refl

same_type_self : (t : EventType) → same_type t t ≡ true
same_type_self payment_process_requested = refl
same_type_self webhook_delivery_requested = refl

pub is_known-append :
    (es xs : List OutboxEvent) (m : EventEnvelope)
    → is_known es m ≡ true
    → is_known (es ++ xs) m ≡ true
unfolding is_known
is_known-append [] xs m h = cc
is_known-append (e ∷ es) xs m h = ground (arith, is_known-append es xs m)

is_known-mark_published :
    (now k : ℕ) (es : List OutboxEvent) (m : EventEnvelope)
    → is_known (mark_published now k es) m ≡ is_known es m
unfolding is_known mark_published
is_known-mark_published now k [] m = refl
is_known-mark_published now k (e ∷ es) m = elim (Bool-cases (e.id == k)) [
  | inl t ↦ rw (t, is_known-mark_published now k es m) refl
  | inr t ↦ rw (t, is_known-mark_published now k es m) refl
]

pub is_known-mark_all :
    (now : ℕ) (batch es : List OutboxEvent) (m : EventEnvelope)
    → is_known (mark_all now batch es) m ≡ is_known es m
is_known-mark_all now [] es m = refl
is_known-mark_all now (e ∷ batch) es m =
    is_known-mark_all now batch (mark_published now e.id es) m
    ∙ is_known-mark_published now e.id es m

pub is_known-find_event :
    (es : List OutboxEvent) (m : EventEnvelope) (e : OutboxEvent)
    → is_known es m ≡ true
    → find_event m.event_id es ≡ some e
    → (m.event_type ≡ e.event_type) × (m.payment_id ≡ e.payment_id)
unfolding is_known find_event
is_known-find_event [] m e h f = cc
is_known-find_event (x ∷ es) m e h f = elim (Bool-cases (x.id == m.event_id)) [
  | inl t ↦
      let both = rw (t, is_known) at h in
      let same : x ≡ e = ground (arith, f) in
      rw (← same)
        (same_type-eq x.event_type m.event_type (ground (arith, both)), ground (arith, both))
  | inr t ↦ is_known-find_event es m e (rw (t, is_known) at h) (rw (t, find_event) at f)
]

pub find_event-is_known :
    (es : List OutboxEvent) (m : EventEnvelope) (e : OutboxEvent)
    → find_event m.event_id es ≡ some e
    → m.event_type ≡ e.event_type
    → m.payment_id ≡ e.payment_id
    → is_known es m ≡ true
unfolding is_known find_event
find_event-is_known [] m e f t p = cc
find_event-is_known (x ∷ es) m e f t p =
    ground (arith, find_event-is_known es m e, same_type_self e.event_type)

pub is_known-has_event :
    (es : List OutboxEvent) (m : EventEnvelope)
    → is_known es m ≡ true
    → has_event m.event_id es ≡ true
unfolding is_known has_event
is_known-has_event [] m h = cc
is_known-has_event (e ∷ es) m h = ground (arith, is_known-has_event es m)

-- `EventEnvelope.model_validate` takes the message.
abbrev pub is_valid : EventEnvelope → Bool
is_valid m = leb 1 m.attempt && (m.schema_version == 1)

-- The message is about this event.
abbrev pub is_about : OutboxEvent → EventEnvelope → Bool
is_about e m =
    (m.event_id == e.id) && (same_type e.event_type m.event_type && (e.payment_id == m.payment_id))

pub is_known-is_about :
    (es : List OutboxEvent) (m : EventEnvelope) (e : OutboxEvent)
    → is_known es m ≡ true
    → find_event m.event_id es ≡ some e
    → is_about e m ≡ true
is_known-is_about es m e h f =
    let (type, payment) = is_known-find_event es m e h f in
    ground (arith, find_event-id m.event_id es e f, same_type_self e.event_type, type, payment)

-- A member that passes a test is counted.
pub mem-tally {ℓ} :
    {A : Type ℓ} (test : A → Bool) (x : A) (xs : List A)
    → Mem x xs
    → test x ≡ true
    → 1 ≤ tally test xs
mem-tally test x [] h t = absurd (not-mem-nil h)
mem-tally test x (y ∷ ys) h t =
    Or.elim le_prop (eq-or-mem_of_mem-cons h) (λ e. rw (← e) (ground arith))
      (λ m. omega (arith, mem-tally test x ys m t))
