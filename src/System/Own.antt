-- ===== src/System/Own.antt =====
-- What may be published: app/services/outbox_relay.py and app/integrations/rabbitmq/publisher.py.
use async_payment_processing.Prelude.{
  ℕ, ◌+◌, ◌≡◌, refl, ap, ◌∙◌, inl, inr, true, some, List, [], ◌∷◌, arith, ◌==◌, Bool-cases, ok, All,
  not,
}
use async_payment_processing.Schemas.{EventEnvelope, validate_envelope, Body}
use async_payment_processing.Models.{OutboxEvent, Database}
use async_payment_processing.Repositories.Outbox.Found.{find_event, find_event-id}
use async_payment_processing.Services.Relay.Marks.{IsEnvelope}
use async_payment_processing.Worker.Publisher.{Message, retry_message}
use async_payment_processing.System.Accounted.{IsAccounted}
use async_payment_processing.System.Known.{
  is_valid, is_known, is_strange, find_event-is_known, mem-tally,
}
use async_payment_processing.System.Step.{IsOwn, fresh, again}

find_event-All :
    (P : OutboxEvent → Type 0) (k : ℕ) (es : List OutboxEvent) (e : OutboxEvent)
    → find_event k es ≡ some e
    → All P es
    → P e
unfolding find_event
find_event-All P k [] e f h = absurd (ground arith)
find_event-All P k (x ∷ es) e f h = elim (Bool-cases (x.id == k)) [
  | inl t ↦ let same : x ≡ e = ground (arith, f) in rw (← same) h.0
  | inr t ↦ find_event-All P k es e (rw (t, find_event) at f) h.1
]

retry_message-body :
    (event : EventEnvelope) (m : Message) → retry_message event ≡ ok m → m.body ≡ event
unfolding retry_message
retry_message-body event m h = ground arith

is_known-attempt :
    (es : List OutboxEvent) (m : EventEnvelope) (n : ℕ)
    → is_known es (record m { attempt = n }) ≡ is_known es m
unfolding is_known
is_known-attempt [] m n = refl
is_known-attempt (e ∷ es) m n = rw (is_known-attempt es m n)

-- What is published names an event of the outbox.
pub IsOwn-known :
    (log held : List EventEnvelope) (db : Database) (m : Message)
    → IsAccounted log held db
    → IsOwn db.outbox log m
    → is_known db.outbox m.body ≡ true
IsOwn-known log held db m h (fresh k e event f v) =
    let (event', v', id, type, payment) = find_event-All IsEnvelope k db.outbox e f h.envelopes in
    let same : event ≡ event' = ground arith in
    let named : event.event_id ≡ k =
      ap (λ (x : EventEnvelope). x.event_id) same ∙ id ∙ find_event-id k db.outbox e f in
    find_event-is_known db.outbox event e (rw named f) (rw same type) (rw same payment)
IsOwn-known log held db m h (again event inside r) =
    let same = retry_message-body (record event { attempt = event.attempt + 1 }) m r in
    rw (same, is_known-attempt db.outbox event (event.attempt + 1))
      (elim (Bool-cases (is_known db.outbox event)) [
        | inl t ↦ t
        | inr t ↦
            absurd (
              omega (arith, h.known, mem-tally (is_strange db.outbox) event log inside (rw t refl)))
      ])

validate_envelope-valid :
    (body : Body) (m : EventEnvelope) → validate_envelope body ≡ ok m → is_valid m ≡ true
unfolding validate_envelope
validate_envelope-valid (Body.dump x) m h = ground arith
validate_envelope-valid (Body.other j) m h = cc

-- It is valid.
pub IsOwn-valid :
    (log held : List EventEnvelope) (db : Database) (m : Message)
    → IsAccounted log held db
    → IsOwn db.outbox log m
    → is_valid m.body ≡ true
IsOwn-valid log held db m h (fresh k e event f v) = validate_envelope-valid e.payload event v
IsOwn-valid log held db m h (again event inside r) =
    let same = retry_message-body (record event { attempt = event.attempt + 1 }) m r in
    rw same (elim (Bool-cases (is_valid event)) [
      | inl t ↦ ground (arith, t)
      | inr t ↦
          absurd
            (omega (arith, h.valid, mem-tally (λ x. not (is_valid x)) event log inside (rw t refl)))
    ])
