-- ===== src/System/Step.antt =====
-- The steps of the whole system: app/services, app/worker and app/integrations/rabbitmq.
use async_payment_processing.Prelude.{
  ℕ, ◌+◌, ◌≤◌, ◌≡◌, Bool, true, ◌&&◌, Option, none, some, List, [], ◌∷◌, ◌==◌, leb, is_some, ok,
  tally, Result,
}
use mathlib.Core.List.{Mem}
use async_payment_processing.Schemas.{EventEnvelope, validate_envelope, dump}
use async_payment_processing.Models.{OutboxEvent, Database}
use async_payment_processing.Repositories.Outbox.Found.{find_event}
use async_payment_processing.Repositories.Session.{Tx}
use async_payment_processing.Services.Relay
use async_payment_processing.Services.Relay.{Broker}
use async_payment_processing.Services.Relay.Marks.{confirmed_as}
use async_payment_processing.Services.Reconciliation.{Config}
use async_payment_processing.Worker.Payment
use async_payment_processing.Worker.Webhook
use async_payment_processing.Worker.Dispatcher
use async_payment_processing.Worker.Dispatcher.{Worker}
use async_payment_processing.Worker.Publisher.{
  Message, Queue, new_message, retry_message, message_ttl,
}
use async_payment_processing.Worker.Consumer.{Settlement, Handled, handle}
use async_payment_processing.Worker.Consumer.Retries.{route}
use async_payment_processing.Flow.Reach.{Step, Reach, empty}
use async_payment_processing.Flow.Outbox.{IsLocal}
use async_payment_processing.System.Broker.{BrokerContract}

-- What a publication may bring to the broker: the relay publishes what the payload of an outbox row
-- says, and a consumer the next attempt of a message that was published before.
pub data IsOwn (outbox : List OutboxEvent) (log : List EventEnvelope) : Message → Type 0 where
  fresh :
      (k : ℕ) (e : OutboxEvent) (event : EventEnvelope)
      → find_event k outbox ≡ some e
      → validate_envelope e.payload ≡ ok event
      → IsOwn outbox log (new_message event)
  again :
      (event : EventEnvelope) {m : Message}
      → Mem event log
      → retry_message (record event { attempt = event.attempt + 1 }) ≡ ok m
      → IsOwn outbox log m

-- A message with this id and this attempt; or a later attempt.
abbrev pub is_attempt : ℕ → ℕ → EventEnvelope → Bool
is_attempt k n m = (m.event_id == k) && (m.attempt == n)

abbrev pub is_attempt_from : ℕ → ℕ → EventEnvelope → Bool
is_attempt_from k n m = (m.event_id == k) && leb n m.attempt

-- A retry that a run of the consumer has published.
abbrev pub IsLogged : List EventEnvelope → Option Message → Type 0
IsLogged log none = Unit
IsLogged log (some m) = 1 ≤ tally (is_attempt m.body.event_id m.body.attempt) log

-- What the subscriber does with a message: `handle` of the consumer over `process` of the dispatcher.
abbrev pub handle_payment_queue_message :
    (Message → Result (Unit {0}))
    → Payment.Env
    → Webhook.Env
    → EventEnvelope
    → Worker
    → Handled × Worker
handle_payment_queue_message confirms payment_env webhook_env event w =
    handle confirms (Dispatcher.process payment_env webhook_env) (dump event) w

module _ (c : Config) (B : BrokerContract) where
  -- The database, the broker, and every message that a publication has brought to the broker.
  pub record SystemState : Type 0 where
    pub db : Database
    pub broker : B.State
    pub log : List EventEnvelope

  -- One step of one process or of the broker. The relay commits a batch after the publications that it
  -- has seen confirmed; a message is settled after the run of the consumer that began with `w`, so
  -- that the database has come from the one which the run left, and after the publication of its
  -- retry. Steps of others may come between all of these.
  pub data SystemStep (s : SystemState) : SystemState → Type 0 where
    local : {db : Database} (st : Step c s.db db) → IsLocal st → SystemStep s (record s { db = db })
    publishes :
        {m : Message} {q : Queue} {broker : B.State}
        → IsOwn s.db.outbox s.log m
        → route m ≡ some q
        → B.Publishes s.broker m broker
        → SystemStep s (record s { broker = broker; log = m.body ∷ s.log })
    relays :
        (confirms : Broker) (tx : Tx) (locked : ℕ → Bool) (batch_size : ℕ)
        → ((k : ℕ)
            → 1 ≤ confirmed_as k (Relay.process_batch confirms tx locked batch_size s.db).0
            → 1 ≤ confirmed_as k s.log)
        → SystemStep s
            (record s { db = (Relay.process_batch confirms tx locked batch_size s.db).2 })
    settles :
        {x : Settlement} {broker : B.State} (confirms : Message → Result (Unit {0}))
        (payment_env : Payment.Env) (webhook_env : Webhook.Env) (event : EventEnvelope) (w : Worker)
        → (handle_payment_queue_message confirms payment_env webhook_env event w).0.settlement
          ≡ some x
        → IsLogged s.log
            (handle_payment_queue_message confirms payment_env webhook_env event w).0.retried
        → Reach c (handle_payment_queue_message confirms payment_env webhook_env event w).1.db s.db
        → B.Settles s.broker event x broker
        → SystemStep s (record s { broker = broker })
    expires :
        {q : Queue} {broker : B.State}
        → is_some (message_ttl q) ≡ true
        → B.Expires s.broker q broker
        → SystemStep s (record s { broker = broker })
    requeues :
        {broker : B.State}
        → B.Requeues s.broker broker
        → SystemStep s (record s { broker = broker })

  -- The tables are empty, and so is the broker, and nothing was published.
  abbrev pub IsInitial : SystemState → Type 0
  IsInitial s = (s.db ≡ empty) × (B.held s.broker ≡ []) × (s.log ≡ [])

  pub data SystemReach : SystemState → Type 0 where
    starts : {s : SystemState} → IsInitial s → SystemReach s
    continues : {s t : SystemState} → SystemReach s → SystemStep s t → SystemReach t
