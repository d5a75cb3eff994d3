-- ===== src/Worker/Consumer/Retries.antt =====
-- The settlement of a delivery and the route of its retry: app/worker/consumer.py and
-- app/integrations/rabbitmq.
use async_payment_processing.Prelude.{
  ◌+◌, ◌≤◌, ◌<◌, ◌≡◌, refl, ◌≢◌, ◌⊎◌, inl, inr, true, Option, none, some, arith, ◌==◌, is_some,
  Bool-cases, ok, err, Result, permanent_event, cancelled, base_exception,
}
use async_payment_processing.Schemas.{EventEnvelope}
use async_payment_processing.Worker.Publisher.{
  Queue, payments_new, payments_retry_1, payments_retry_2, payments_dlq, Message, dead_letter,
  bound_queue, new_message, retry_message, publish_retry, message_ttl, payments, of_queue,
}
use async_payment_processing.Worker.Consumer.{ack, reject, max_attempts, after_process}

-- The queue to which a message goes.
abbrev pub route : Message → Option Queue
route m = bound_queue m.exchange m.routing_key

-- The queue to which a message of this queue goes when it is rejected or its time is over.
abbrev pub dead_letter_queue : Queue → Option Queue
dead_letter_queue q = elim (dead_letter q) [ none ↦ none | some (x, k) ↦ bound_queue x k ]

-- A retry that is published waits in a queue with a time limit that dead-letters it to the queue
-- of new events, where an event also starts; a rejected delivery of that queue goes to the DLQ,
-- from which nothing goes on.
pub retries_return :
    (event : EventEnvelope) (m : Message)
    → retry_message event ≡ ok m
    → (route (new_message event) ≡ some payments_new)
      × ((q : Queue) × (route m ≡ some q)
          × (is_some (message_ttl q) ≡ true)
          × (dead_letter_queue q ≡ some payments_new))
      × (dead_letter_queue payments_new ≡ some payments_dlq)
      × (dead_letter_queue payments_dlq ≡ none)
unfolding retry_message bound_queue
retries_return event m h = elim (Bool-cases (event.attempt == 2)) [
  | inl e ↦ (refl, (payments_retry_1, ground arith, refl, refl), refl, refl)
  | inr e ↦ (refl, (payments_retry_2, ground arith, refl, refl), refl, refl)
]

-- Over a broker that confirms, the retry of an attempt that is not the last is published.
publish_retry-ok :
    (broker : Message → Result (Unit {0})) (event : EventEnvelope)
    → ((m : Message) → broker m ≡ ok tt)
    → 1 ≤ event.attempt
    → event.attempt < max_attempts
    → (m : Message) × (publish_retry broker (record event { attempt = event.attempt + 1 }) ≡ ok m)
unfolding publish_retry retry_message
publish_retry-ok broker event confirms one left = elim (Bool-cases (event.attempt == 1)) [
  | inl e ↦ (to payments_retry_1, ground (arith, confirms (to payments_retry_1)))
  | inr e ↦ (to payments_retry_2, ground (arith, confirms (to payments_retry_2)))
]
  where
    to : Queue → Message
    to q = record {
      exchange = payments;
      routing_key = of_queue q;
      body = record event { attempt = event.attempt + 1 };
    }

-- How one delivery of a valid event ends, on every outcome of the processor except those that are
-- no Exception. If a retry is published, it is the event with the next attempt, attempts were left, the
-- broker has confirmed it, and the delivery is acknowledged; an acknowledgement without a retry means
-- success; a rejection means a permanent failure or that no attempts were left; any failure of the
-- last attempt is rejected; and over a broker that confirms, any other failure of an earlier attempt
-- that is not permanent is retried.
pub after_process-settles :
    (broker : Message → Result (Unit {0})) (event : EventEnvelope) (r : Result (Unit {0}))
    → r ≢ err cancelled
    → r ≢ err base_exception
    → let h = after_process broker event r in
      ((m : Message)
        → h.retried ≡ some m
        → (h.settlement ≡ some ack)
          × (m.body ≡ record event { attempt = event.attempt + 1 })
          × (event.attempt < max_attempts)
          × (broker m ≡ ok tt))
      × (h.settlement ≡ some ack → h.retried ≡ none → r ≡ ok tt)
      × (h.settlement ≡ some reject → (r ≡ err permanent_event) ⊎ (max_attempts ≤ event.attempt))
      × (max_attempts ≤ event.attempt → r ≢ ok tt → h.settlement ≡ some reject)
      × (((m : Message) → broker m ≡ ok tt)
          → 1 ≤ event.attempt
          → event.attempt < max_attempts
          → r ≢ ok tt
          → r ≢ err permanent_event
          → is_some h.retried ≡ true)
unfolding after_process publish_retry
after_process-settles broker event r nc nb = (
  λ m e. ground arith,
  λ a b. ground arith,
  λ a. ground arith,
  λ a b. ground arith,
  λ confirms a b c d. let (m, e) = publish_retry-ok broker event confirms a b in ground (arith, e),
)
