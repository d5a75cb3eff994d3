-- ===== src/Worker/Consumer.antt =====
-- app/worker/consumer.py, class `PaymentQueueConsumer`.
pub mod Retries
pub mod Journey
use async_payment_processing.Prelude.{
  ℕ, ◌+◌, Option, none, some, if◌then◌else◌, leb, ok, err, Result, permanent_event, cancelled,
  base_exception,
}
use async_payment_processing.Schemas.{EventEnvelope, Body, validate_envelope}
use async_payment_processing.Worker.Publisher.{Message, publish_retry}

abbrev pub max_attempts : ℕ
max_attempts = 3

-- What the consumer tells the broker about a delivery.
pub data Settlement : Type 0 where
  ack reject nack : Settlement

-- How a delivery ends: it is settled, and a retry may have been published; or an exception
-- outside Exception leaves it unsettled.
pub record Handled : Type 0 where
  pub settlement : Option Settlement
  pub retried : Option Message

abbrev settled : Settlement → Handled
settled s = record { settlement = some s; retried = none }

abbrev after_retry : Result Message → Handled
after_retry (ok m) = record { settlement = some Settlement.ack; retried = some m }
after_retry (err cancelled) = record { settlement = none; retried = none }
after_retry (err base_exception) = record { settlement = none; retried = none }
after_retry (err e) = settled Settlement.nack

-- `_retry_or_reject`
unfoldable pub retry_or_reject : (Message → Result (Unit {0})) → EventEnvelope → Handled
retry_or_reject broker event =
    if leb max_attempts event.attempt
    then settled Settlement.reject
    else after_retry (publish_retry broker (record event { attempt = event.attempt + 1 }))

-- The `except` clauses around the processor.
unfoldable pub after_process :
    (Message → Result (Unit {0})) → EventEnvelope → Result (Unit {0}) → Handled
unfolding retry_or_reject
after_process broker event (ok done) = settled Settlement.ack
after_process broker event (err permanent_event) = settled Settlement.reject
after_process broker event (err cancelled) = record { settlement = none; retried = none }
after_process broker event (err base_exception) = record { settlement = none; retried = none }
after_process broker event (err e) = retry_or_reject broker event

-- `handle`, over the state `S` that the processor changes.
module _ {S : Type 0} where
  handle_event :
      (Message → Result (Unit {0}))
      → (EventEnvelope → S → Result (Unit {0}) × S)
      → Result EventEnvelope
      → S
      → Handled × S
  handle_event broker processor (err e) s = (settled Settlement.reject, s)
  handle_event broker processor (ok event) s =
      let (r, s') = processor event s in (after_process broker event r, s')

  unfoldable pub handle :
      (Message → Result (Unit {0}))
      → (EventEnvelope → S → Result (Unit {0}) × S)
      → Body
      → S
      → Handled × S
  unfolding handle_event
  handle broker processor body s = handle_event broker processor (validate_envelope body) s
