-- ===== src/Worker/Publisher.antt =====
-- app/integrations/rabbitmq: the queues (topology.py, declaration.py) and the publisher (publisher.py).
use async_payment_processing.Prelude.{
  ℕ, Option, none, some, if◌then◌else◌, ◌==◌, ◌>>=◌, ok, err, Result, value_error,
}
use async_payment_processing.Schemas.{EventEnvelope}

pub data Exchange : Type 0 where
  payments payments_dlx : Exchange

pub data Queue : Type 0 where
  payments_new payments_retry_1 payments_retry_2 payments_dlq : Queue

-- Each queue has its own name for routing key.
pub data RoutingKey : Type 0 where
  of_queue : Queue → RoutingKey

-- `x-dead-letter-exchange` and `x-dead-letter-routing-key` of a queue.
abbrev pub dead_letter : Queue → Option (Exchange × RoutingKey)
dead_letter payments_new = some (payments_dlx, of_queue payments_dlq)
dead_letter payments_retry_1 = some (payments, of_queue payments_new)
dead_letter payments_retry_2 = some (payments, of_queue payments_new)
dead_letter payments_dlq = none

-- `x-message-ttl` of a queue, in milliseconds.
abbrev pub message_ttl : Queue → Option ℕ
message_ttl payments_new = none
message_ttl payments_retry_1 = some 1000
message_ttl payments_retry_2 = some 2000
message_ttl payments_dlq = none

-- `declare_rabbitmq_topology`: what each exchange, both of them direct, is bound to.
unfoldable pub bound_queue : Exchange → RoutingKey → Option Queue
bound_queue payments (of_queue payments_new) = some payments_new
bound_queue payments (of_queue payments_retry_1) = some payments_retry_1
bound_queue payments (of_queue payments_retry_2) = some payments_retry_2
bound_queue payments_dlx (of_queue payments_dlq) = some payments_dlq
bound_queue _ _ = none

-- A message that `_publish` hands to the broker.
pub record Message : Type 0 where
  pub exchange : Exchange
  pub routing_key : RoutingKey
  pub body : EventEnvelope

-- `publish`
abbrev pub new_message : EventEnvelope → Message
new_message event = record {
  exchange = payments;
  routing_key = of_queue payments_new;
  body = event;
}

-- The routing key that `publish_retry` chooses by the attempt.
unfoldable pub retry_message : EventEnvelope → Result Message
retry_message event =
    if event.attempt == 2
    then ok (record { exchange = payments; routing_key = of_queue payments_retry_1; body = event })
    else if event.attempt == 3
    then ok (record { exchange = payments; routing_key = of_queue payments_retry_2; body = event })
    else err value_error

-- `publish_retry`, with what the broker confirms.
unfoldable pub publish_retry : (Message → Result (Unit {0})) → EventEnvelope → Result Message
unfolding retry_message
publish_retry broker event = retry_message event >>= λ m. broker m >>= λ done. ok m
