-- ===== src/System/Lossless.antt =====
-- The events between the database and the broker: the whole of app/services and app/worker.
use async_payment_processing.Prelude.{
  ℕ, ◌≤◌, ◌≡◌, refl, ◌⊎◌, inl, inr, true, none, some, List, [], ◌∷◌, arith, ◌==◌, Bool-cases, tally,
  tally-le-add, sym, tally-All,
}
use async_payment_processing.Schemas.{
  EventEnvelope, EventType-cases, is_pending, is_terminal, payment_process_requested,
  webhook_delivery_requested,
}
use async_payment_processing.Models.{Payment, OutboxEvent, Database}
use async_payment_processing.Models.Rows.{find, find-id}
use async_payment_processing.Repositories.Outbox.Found.{find_event}
use async_payment_processing.Services.Relay.Marks.{confirmed_as}
use async_payment_processing.Services.Reconciliation.{Config}
use async_payment_processing.Flow.{is_request, is_webhook_as}
use async_payment_processing.Flow.Handled.{IsHandled, IsHandled-type}
use async_payment_processing.Flow.Reach.{Reach-IsSound}
use async_payment_processing.System.Broker.{BrokerContract}
use async_payment_processing.System.Step.{SystemState, SystemReach, is_attempt, is_attempt_from}
use async_payment_processing.System.Accounted.{IsAccounted}
use async_payment_processing.System.Invariant.{SystemReach-Reach, SystemReach-IsAccounted}
use async_payment_processing.System.Known.{is_known, is_strange, is_known-is_about, is_about}

-- A published id was published with some attempt.
some_attempt :
    (k : ℕ) (log : List EventEnvelope)
    → 1 ≤ confirmed_as k log
    → (n : ℕ) × (1 ≤ tally (is_attempt k n) log)
some_attempt k [] h = absurd (omega arith)
some_attempt k (m ∷ log) h = elim (Bool-cases (m.event_id == k)) [
  | inl own ↦ (m.attempt, ground (arith, own))
  | inr other ↦
      let (n, l) = some_attempt k log (let rest = rw other at h in omega arith) in
      (n, omega (arith, l))
]

-- The row of the outbox waits to be published, or the broker holds a message about it.
abbrev pub IsCarried : List OutboxEvent → List EventEnvelope → OutboxEvent → Type 0
IsCarried outbox held e =
    (find_event e.id outbox ≡ some e) × ((e.published_at ≡ none) ⊎ (1 ≤ tally (is_about e) held))

module _ (log held : List EventEnvelope) (db : Database) (a : IsAccounted log held db) where
  about :
      (e : OutboxEvent) (n : ℕ)
      → find_event e.id db.outbox ≡ some e
      → 1 ≤ tally (is_attempt_from e.id n) held
      → 1 ≤ tally (is_about e) held
  about e n f h = omega (
    arith,
    h,
    a.known,
    a.arrived (is_strange db.outbox),
    tally-le-add (is_attempt_from e.id n) (is_about e) (is_strange db.outbox) known_about held,
  )
    where
      known_about :
          (m : EventEnvelope)
          → is_attempt_from e.id n m ≡ true
          → (is_about e m ≡ true) ⊎ (is_strange db.outbox m ≡ true)
      known_about m t = elim (Bool-cases (is_known db.outbox m)) [
        | inr b ↦ inr (rw b refl)
        | inl b ↦
            let same : m.event_id ≡ e.id = ground (arith, t) in
            inl (is_known-is_about db.outbox m e b (rw same f))
      ]

  -- An event of the outbox that is not handled is carried.
  unhandled-IsCarried :
      (e : OutboxEvent)
      → find_event e.id db.outbox ≡ some e
      → ¬ IsHandled e.event_type e.payment_id db
      → IsCarried db.outbox held e
  unhandled-IsCarried e f open_event = (
    f,
    elim (a.marked e.id e f) [
      | inl waits ↦ inl waits
      | inr once ↦
          let (n, l) = some_attempt e.id log once in
          elim (a.kept e.id n e f l) [
            | inl there ↦ inr (about e n f there)
            | inr handled ↦ absurd (open_event handled)
          ]
    ],
  )

-- In every state that the system reaches from empty tables and queues, if the reconciliation is
-- granted at least one attempt: for a payment that is pending there is an event in the outbox that
-- asks to process it, and for a payment with a final status whose webhook was not sent there is one
-- that asks for the webhook, under the event id that the row holds; and this event waits to be
-- published, or the broker holds a message about it, in a queue, in the DLQ or in a delivery that is
-- not settled. So it is whatever the clocks, the provider, the targets and the broker answer, whichever
-- transactions fail, and however the steps of the processes interleave.
pub SystemReach-IsCarried :
    {c : Config} {B : BrokerContract} {s : SystemState c B} (k : ℕ) (p : Payment)
    → 1 ≤ c.max_attempts
    → SystemReach c B s
    → find k s.db.payments ≡ some p
    → (is_pending p.status ≡ true
        → (e : OutboxEvent) × (is_request k e ≡ true) × IsCarried s.db.outbox (B.held s.broker) e)
      × (is_terminal p.status ≡ true
          → p.webhook_sent_at ≡ none
          → (e : OutboxEvent) × (is_webhook_as k p.webhook_event_id e ≡ true)
            × IsCarried s.db.outbox (B.held s.broker) e)
SystemReach-IsCarried {B} {s} k p le r f =
    let a = SystemReach-IsAccounted r in
    let row = (Reach-IsSound le (SystemReach-Reach r)).rows k p f in
    let same = find-id k s.db.payments p f in
    (
      λ pending.
          let (e, asks, g) =
            tally-All (is_request k) _ s.db.outbox
              (let one = rw same at row.requested in omega (arith, one)) a.found in
          (
            e,
            asks,
            unhandled-IsCarried s.log (B.held s.broker) s.db a e g (request_open e asks pending),
          ),
      λ final unsent.
          let (e, asks, g) =
            tally-All (is_webhook_as k p.webhook_event_id) _ s.db.outbox
              (let one = rw (same, final) at row.announced_as in omega (arith, one)) a.found in
          (
            e,
            asks,
            unhandled-IsCarried s.log (B.held s.broker) s.db a e g (webhook_open e asks unsent),
          ),
    )
  where
    request_open :
        (e : OutboxEvent)
        → is_request k e ≡ true
        → is_pending p.status ≡ true
        → ¬ IsHandled e.event_type e.payment_id s.db
    request_open e asks pending handled =
        let own : e.payment_id ≡ k = ground (arith, asks) in
        elim (EventType-cases e.event_type) [
          | inr t ↦ absurd (ground (arith, asks, t))
          | inl t ↦
              let (p', f', left) =
                IsHandled-type payment_process_requested e.event_type e.payment_id s.db (sym t)
                  handled in
              let one : p ≡ p' = ground (arith, f, rw own at f') in
              absurd (ground (arith, pending, left, one))
        ]

    webhook_open :
        (e : OutboxEvent)
        → is_webhook_as k p.webhook_event_id e ≡ true
        → p.webhook_sent_at ≡ none
        → ¬ IsHandled e.event_type e.payment_id s.db
    webhook_open e asks unsent handled =
        let own : e.payment_id ≡ k = ground (arith, asks) in
        elim (EventType-cases e.event_type) [
          | inl t ↦ absurd (ground (arith, asks, t))
          | inr t ↦
              let (p', f', sent) =
                IsHandled-type webhook_delivery_requested e.event_type e.payment_id s.db (sym t)
                  handled in
              let one : p ≡ p' = ground (arith, f, rw own at f') in
              absurd (ground (arith, unsent, sent, one))
        ]
