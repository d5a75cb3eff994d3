-- ===== src/System/Broker.antt =====
-- What app/integrations/rabbitmq and app/worker/consumer.py rely on of RabbitMQ, which is not part of
-- the repository: the queues that `declare_rabbitmq_topology` declares are durable, messages are
-- persistent, and the broker confirms a publication only after it has stored it.
use async_payment_processing.Prelude.{◌+◌, ◌≡◌, Bool, some, List, if◌then◌else◌, tally}
use async_payment_processing.Schemas.{EventEnvelope}
use async_payment_processing.Worker.Publisher.{Message, Queue, payments_new}
use async_payment_processing.Worker.Consumer.{Settlement, ack, reject, nack}
use async_payment_processing.Worker.Consumer.Retries.{route, dead_letter_queue}

-- `held` are the messages of all queues, the DLQ and the deliveries that are not settled included.
pub record BrokerContract : Type 1 where
  pub State : Type 0
  pub held : State → List EventEnvelope
  -- A publication that arrives.
  pub Publishes : State → Message → State → Type 0
  -- A consumer of the queue of new events settles a delivery of this message.
  pub Settles : State → EventEnvelope → Settlement → State → Type 0
  -- The time to live of a message of this queue is over.
  pub Expires : State → Queue → State → Type 0
  -- A lost connection puts what it has not settled back.
  pub Requeues : State → State → Type 0
  -- A routed message is added.
  pub publishes-held :
      (s t : State) (m : Message) (q : Queue) (test : EventEnvelope → Bool)
      → Publishes s m t
      → route m ≡ some q
      → tally test (held t) ≡ (if test m.body then 1 else 0) + tally test (held s)
  -- An acknowledged message is removed, once.
  pub acks-held :
      (s t : State) (m : EventEnvelope) (test : EventEnvelope → Bool)
      → Settles s m ack t
      → tally test (held s) ≡ (if test m then 1 else 0) + tally test (held t)
  -- A rejected message is moved, if its queue has a dead-letter queue.
  pub rejects-held :
      (s t : State) (m : EventEnvelope) (q : Queue) (test : EventEnvelope → Bool)
      → Settles s m reject t
      → dead_letter_queue payments_new ≡ some q
      → tally test (held t) ≡ tally test (held s)
  -- A message that is refused with `requeue` is kept.
  pub nacks-held :
      (s t : State) (m : EventEnvelope) (test : EventEnvelope → Bool)
      → Settles s m nack t
      → tally test (held t) ≡ tally test (held s)
  -- So is one whose time is over, if its queue has a dead-letter queue.
  pub expires-held :
      (s t : State) (q q' : Queue) (test : EventEnvelope → Bool)
      → Expires s q t
      → dead_letter_queue q ≡ some q'
      → tally test (held t) ≡ tally test (held s)
  pub requeues-held :
      (s t : State) (test : EventEnvelope → Bool)
      → Requeues s t
      → tally test (held t) ≡ tally test (held s)
