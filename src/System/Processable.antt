-- ===== src/System/Processable.antt =====
-- What a worker makes of the messages that the broker holds: app/worker.
use async_payment_processing.Prelude.{
  ℕ, ◌+◌, ◌≤◌, ◌≡◌, inl, inr, Bool, true, ◌&&◌, not, some, List, [], ◌∷◌, arith, ◌==◌, Option-cases,
  equals_some, Bool-cases, tally, ◌⊎◌, false, ◌||◌, Option, none, ok, tally-le-add, All, All-imp,
}
use async_payment_processing.Schemas.{
  EventEnvelope, ProviderPaymentRequest, is_pending, is_terminal, validate_envelope, dump,
  payment_process_requested, webhook_delivery_requested,
}
use async_payment_processing.Models.{Payment, OutboxEvent, Database}
use async_payment_processing.Models.Rows.{find, find-id}
use async_payment_processing.Repositories.Outbox.Found.{find_event, find_event-id}
use async_payment_processing.Services.Reconciliation.{Config}
use async_payment_processing.Worker.Payment.{load_provider_request}
use async_payment_processing.Worker.Webhook.{WebhookDelivery, load_delivery}
use async_payment_processing.Flow.{IsSound, is_request, is_webhook, is_webhook_as}
use async_payment_processing.Flow.Reach.{Reach-IsSound}
use async_payment_processing.Flow.Ready.{load_provider_request-ready, load_delivery-ready}
use async_payment_processing.System.Broker.{BrokerContract}
use async_payment_processing.System.Step.{SystemState, SystemReach}
use async_payment_processing.System.Invariant.{SystemReach-Reach, SystemReach-IsAccounted}
use async_payment_processing.System.Known.{is_known-find_event, is_known, is_strange, is_valid}

-- The event that a known message names.
is_known-found :
    (es : List OutboxEvent) (m : EventEnvelope)
    → is_known es m ≡ true
    → (e : OutboxEvent) × (find_event m.event_id es ≡ some e)
unfolding is_known find_event
is_known-found [] m h = absurd (ground arith)
is_known-found (x ∷ es) m h = elim (Bool-cases (x.id == m.event_id)) [
  | inl t ↦ (x, rw t)
  | inr t ↦ let (e, f) = is_known-found es m (rw (t, is_known) at h) in (e, rw t f)
]

-- A row that is found is counted.
find_event-tally :
    (test : OutboxEvent → Bool) (k : ℕ) (es : List OutboxEvent) (e : OutboxEvent)
    → find_event k es ≡ some e
    → test e ≡ true
    → 1 ≤ tally test es
unfolding find_event
find_event-tally test k [] e f t = absurd (ground arith)
find_event-tally test k (x ∷ es) e f t = elim (Bool-cases (x.id == k)) [
  | inl own ↦ let same : x ≡ e = ground (arith, f) in rw same (rw t (omega arith))
  | inr apart ↦
      let rest = find_event-tally test k es e (rw (apart, find_event) at f) t in omega (arith, rest)
]

-- The members that pass one test and not another are the rest.
tally-split :
    (p q : OutboxEvent → Bool)
    → ((e : OutboxEvent) → q e ≡ true → p e ≡ true)
    → (es : List OutboxEvent) → tally p es ≡ tally q es + tally (λ e. p e && not (q e)) es
tally-split p q imp [] = omega arith
tally-split p q imp (e ∷ es) = ground (arith, imp e, tally-split p q imp es)

module _ (m : ℕ) (db : Database) (h : IsSound m db) (k : ℕ) (e : OutboxEvent)
    (f : find_event k db.outbox ≡ some e) where
  -- The payment of an event is there.
  requested-found :
      is_request e.payment_id e ≡ true → (p : Payment) × (find e.payment_id db.payments ≡ some p)
  requested-found t = elim (Option-cases (find e.payment_id db.payments)) [
    | inr found ↦ found
    | inl none_there ↦ absurd (
        omega (
          arith,
          (h.no_orphans e.payment_id none_there).0,
          find_event-tally (is_request e.payment_id) k db.outbox e f t,
        ))
  ]

  announced-found :
      is_webhook e.payment_id e ≡ true → (p : Payment) × (find e.payment_id db.payments ≡ some p)
  announced-found t = elim (Option-cases (find e.payment_id db.payments)) [
    | inr found ↦ found
    | inl none_there ↦ absurd (
        omega (
          arith,
          (h.no_orphans e.payment_id none_there).1,
          find_event-tally (is_webhook e.payment_id) k db.outbox e f t,
        ))
  ]

  -- Its webhook event is the one that the row names, and its status is final.
  announced-named :
      (p : Payment)
      → is_webhook e.payment_id e ≡ true
      → find e.payment_id db.payments ≡ some p
      → (is_terminal p.status ≡ true) × (equals_some p.webhook_event_id e.id ≡ true)
  announced-named p t g =
      let row = h.rows e.payment_id p g in
      let same = find-id e.payment_id db.payments p g in
      let one = rw same at row.announced in
      let named = rw same at row.announced_as in
      let some_one = find_event-tally (is_webhook e.payment_id) k db.outbox e f t in
      (
        ground (arith, one, some_one),
        elim (Bool-cases (equals_some p.webhook_event_id e.id)) [
          | inl own ↦ own
          | inr apart ↦
              let more =
                find_event-tally
                  (λ x.
                    is_webhook e.payment_id x
                    && not (is_webhook_as e.payment_id p.webhook_event_id x))
                  k db.outbox e f (ground (arith, t, apart)) in
              absurd (
                omega (
                  arith,
                  one,
                  named,
                  more,
                  tally-split (is_webhook e.payment_id)
                      (is_webhook_as e.payment_id p.webhook_event_id) (λ x a. ground arith)
                      db.outbox,
                ))
        ],
      )

-- The message passes the validation of the consumer, and what the processor for its type loads of the
-- database is there and valid.
abbrev pub IsProcessable : Database → EventEnvelope → Type 0
IsProcessable db m =
    (validate_envelope (dump m) ≡ ok m)
    × (m.event_type ≡ payment_process_requested
        → (r : Option ProviderPaymentRequest) × (load_provider_request m.payment_id db ≡ ok r))
    × (m.event_type ≡ webhook_delivery_requested
        → (d : Option WebhookDelivery) × (load_delivery m db ≡ ok d))

module _ (n : ℕ) (db : Database) (h : IsSound n db) where
  request-loads :
      (k : ℕ) (p : Payment)
      → find k db.payments ≡ some p
      → (r : Option ProviderPaymentRequest) × (load_provider_request k db ≡ ok r)
  unfolding load_provider_request
  request-loads k p f = elim (Bool-cases (is_pending p.status)) [
    | inl t ↦ (some _, load_provider_request-ready n k db p h f t)
    | inr t ↦ (none, ground arith)
  ]

  delivery-loads :
      (m : EventEnvelope) (p : Payment)
      → find m.payment_id db.payments ≡ some p
      → is_terminal p.status ≡ true
      → equals_some p.webhook_event_id m.event_id ≡ true
      → (d : Option WebhookDelivery) × (load_delivery m db ≡ ok d)
  unfolding load_delivery
  delivery-loads m p f final named = elim (Option-cases p.webhook_sent_at) [
    | inr (at, e) ↦ (none, ground arith)
    | inl unsent ↦
        let ready = load_delivery-ready n m db p h f final unsent (ground arith) in
        (some ready.0, ready.1)
  ]

  message-IsProcessable :
      (m : EventEnvelope)
      → (is_strange db.outbox m || not (is_valid m)) ≡ false
      → IsProcessable db m
  unfolding validate_envelope
  message-IsProcessable m good =
      let (e, f) = is_known-found db.outbox m (ground arith) in
      let (type, payment) = is_known-find_event db.outbox m e (ground arith) f in
      let id = find_event-id m.event_id db.outbox e f in
      (
        ground (arith, good),
        λ t.
            let (p, g) = requested-found n db h m.event_id e f (ground (arith, type, t)) in
            request-loads m.payment_id p (rw payment g),
        λ t.
            let asks : is_webhook e.payment_id e ≡ true = ground (arith, type, t) in
            let (p, g) = announced-found n db h m.event_id e f asks in
            let (final, named) = announced-named n db h m.event_id e f p asks g in
            delivery-loads m p (rw payment g) final (rw (← id) named),
      )

tally-none :
    (p : EventEnvelope → Bool) (ms : List EventEnvelope)
    → tally p ms ≡ 0
    → All (λ m. p m ≡ false) ms
tally-none p [] h = tt
tally-none p (m ∷ ms) h = (ground (arith, h), tally-none p ms (omega (arith, h)))

-- In every state that the system reaches from empty tables and queues, if the reconciliation is granted at
-- least one attempt, every message that the broker holds can be processed on the database as it is: it
-- passes the validation of the consumer, and the first step of its processor raises nothing. For a
-- message that asks to process a payment this is the loading of the request to the provider, for one
-- that asks for a webhook the loading of the delivery.
pub SystemReach-IsProcessable :
    {c : Config} {B : BrokerContract} {s : SystemState c B}
    → 1 ≤ c.max_attempts
    → SystemReach c B s
    → All (IsProcessable s.db) (B.held s.broker)
SystemReach-IsProcessable {c} {B} {s} le r =
    let a = SystemReach-IsAccounted r in
    let sound = Reach-IsSound le (SystemReach-Reach r) in
    let bad : EventEnvelope → Bool = λ m. is_strange s.db.outbox m || not (is_valid m) in
    let invalid : EventEnvelope → Bool = λ m. not (is_valid m) in
    All-imp (message-IsProcessable c.max_attempts s.db sound) (B.held s.broker) (
      tally-none bad (B.held s.broker) (
        omega (
          arith,
          a.known,
          a.valid,
          a.arrived (is_strange s.db.outbox),
          a.arrived invalid,
          tally-le-add bad (is_strange s.db.outbox) invalid (λ m t. either m t) (B.held s.broker),
        )))
  where
    either :
        (m : EventEnvelope)
        → (is_strange s.db.outbox m || not (is_valid m)) ≡ true
        → (is_strange s.db.outbox m ≡ true) ⊎ (not (is_valid m) ≡ true)
    either m t = elim (Bool-cases (is_strange s.db.outbox m)) [
      | inl b ↦ inl b
      | inr b ↦ inr (ground (arith, t, b))
    ]
