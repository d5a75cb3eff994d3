-- ===== src/Services/Relay/Marks.antt =====
-- What the marks of the relay do to the events that wait: app/services/outbox_relay.py.
use async_payment_processing.Prelude.{
  ℕ, ◌+◌, ◌≤◌, ◌≡◌, refl, Bool, false, ◌&&◌, not, List, [], ◌∷◌, ◌==◌, arith, ok, is_some, tally,
  All, ◌∙◌, inl, inr, Bool-cases,
}
use async_payment_processing.Models.{OutboxEvent}
use async_payment_processing.Schemas.{EventEnvelope, validate_envelope}
use async_payment_processing.Repositories.Outbox.{mark_published}
use async_payment_processing.Services.Relay.{Broker, publish_all}
use async_payment_processing.Services.Relay.Delivery.{mark_all, IsDelivered}

-- The payload is the envelope of the event.
abbrev pub IsEnvelope : OutboxEvent → Type 0
IsEnvelope e =
    (m : EventEnvelope) × (validate_envelope e.payload ≡ ok m)
    × (m.event_id ≡ e.id)
    × (m.event_type ≡ e.event_type)
    × (m.payment_id ≡ e.payment_id)

abbrev pub is_unpublished : OutboxEvent → Bool
is_unpublished e = not (is_some e.published_at)

-- How many events wait, and how many of them under an id.
abbrev pub waiting : List OutboxEvent → ℕ
waiting es = tally is_unpublished es

abbrev pub waiting_as : ℕ → List OutboxEvent → ℕ
waiting_as k es = tally (λ e. (e.id == k) && is_unpublished e) es

-- How many messages carry an id.
abbrev pub confirmed_as : ℕ → List EventEnvelope → ℕ
confirmed_as k ms = tally (λ (m : EventEnvelope). m.event_id == k) ms

pub mark_published-waiting :
    (now k : ℕ) (es : List OutboxEvent)
    → waiting (mark_published now k es) + waiting_as k es ≡ waiting es
unfolding mark_published
mark_published-waiting now k [] = omega arith
mark_published-waiting now k (e ∷ es) = ground (arith, mark_published-waiting now k es)

mark_published-waiting_as :
    (now k j : ℕ) (es : List OutboxEvent)
    → (k == j) ≡ false
    → waiting_as j (mark_published now k es) ≡ waiting_as j es
unfolding mark_published
mark_published-waiting_as now k j [] h = refl
mark_published-waiting_as now k j (e ∷ es) h =
    ground (arith, mark_published-waiting_as now k j es h)

pub mark_all-waiting :
    (now : ℕ) (batch es : List OutboxEvent) → waiting (mark_all now batch es) ≤ waiting es
mark_all-waiting now [] es = omega arith
mark_all-waiting now (e ∷ batch) es = omega (
  arith,
  mark_all-waiting now batch (mark_published now e.id es),
  mark_published-waiting now e.id es,
)

-- An id that no confirmed message carries waits as before.
pub mark_all-unconfirmed :
    (broker : Broker) (now k : ℕ) (batch : List OutboxEvent) (ms : List EventEnvelope)
    (es : List OutboxEvent)
    → IsDelivered broker now batch ms
    → All IsEnvelope batch
    → confirmed_as k ms ≡ 0
    → waiting_as k (mark_all now batch es) ≡ waiting_as k es
mark_all-unconfirmed broker now k [] ms es d a h = refl
mark_all-unconfirmed broker now k (e ∷ batch) [] es d a h = elim d [ ]
mark_all-unconfirmed broker now k (e ∷ batch) (m ∷ ms) es (v, b, d) ((m', v', same, t, p), a) h =
    let eq : m ≡ m' = ground arith in
    let other : (e.id == k) ≡ false = ground (arith, eq, same) in
    mark_all-unconfirmed broker now k batch ms (mark_published now e.id es) d a (ground arith)
    ∙ mark_published-waiting_as now e.id k es other

mark_published-AllEnvelopes :
    (now k : ℕ) (es : List OutboxEvent)
    → All IsEnvelope es
    → All IsEnvelope (mark_published now k es)
unfolding mark_published
mark_published-AllEnvelopes now k [] h = tt
mark_published-AllEnvelopes now k (e ∷ es) h = elim (Bool-cases (e.id == k)) [
  | inl q ↦ rw q (h.0, mark_published-AllEnvelopes now k es h.1)
  | inr q ↦ rw q (h.0, mark_published-AllEnvelopes now k es h.1)
]

pub mark_all-AllEnvelopes :
    (now : ℕ) (batch es : List OutboxEvent)
    → All IsEnvelope es
    → All IsEnvelope (mark_all now batch es)
mark_all-AllEnvelopes now [] es h = h
mark_all-AllEnvelopes now (e ∷ batch) es h =
    mark_all-AllEnvelopes now batch (mark_published now e.id es)
      (mark_published-AllEnvelopes now e.id es h)

-- A broker that confirms everything lets a batch of envelopes through whole.
pub publish_all-works :
    (broker : Broker) (now : ℕ) (batch rows : List OutboxEvent)
    → ((m : EventEnvelope) → broker m ≡ ok tt)
    → All IsEnvelope batch
    → (publish_all broker now batch rows).rows ≡ ok (mark_all now batch rows)
unfolding publish_all
publish_all-works broker now [] rows b a = refl
publish_all-works broker now (e ∷ batch) rows b ((m, v, i, j, l), a) =
    rw (v, b m, publish_all-works broker now batch (mark_published now e.id rows) b a)
