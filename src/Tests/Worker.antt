-- ===== src/Tests/Worker.antt =====
-- Runs of the consumer.
use async_payment_processing.Prelude.{
  ◌≤◌, ◌<◌, ◌≡◌, refl, ◌≢◌, ◌⊎◌, true, none, some, arith, is_some, ok, err, permanent_event,
  retryable_event, Result, ℕ, if◌then◌else◌, ◌==◌, Error, cancelled, base_exception,
}
use async_payment_processing.Schemas.{EventEnvelope}
use async_payment_processing.Worker.Publisher.{
  Message, Queue, payments_new, payments_retry_1, payments_dlq, new_message, retry_message,
  message_ttl, of_queue,
}
use async_payment_processing.Worker.Consumer.{ack, reject, max_attempts, after_process}
use async_payment_processing.Worker.Consumer.Retries.{
  route, dead_letter_queue, retries_return, after_process-settles,
}
use async_payment_processing.Worker.Consumer.Journey.{
  journey, published, attempt_of, HasEnded, journey-ends,
}
use async_payment_processing.Tests.Samples.{process_event}

abbrev second : EventEnvelope
second = record process_event { attempt = 2 }

abbrev second_message : Message
second_message = record (new_message second) { routing_key = of_queue payments_retry_1 }

second-retry : retry_message second ≡ ok second_message
unfolding retry_message
second-retry = refl

retries_return_example :
    (route (new_message second) ≡ some payments_new)
    × ((q : Queue) × (route second_message ≡ some q)
        × (is_some (message_ttl q) ≡ true)
        × (dead_letter_queue q ≡ some payments_new))
    × (dead_letter_queue payments_new ≡ some payments_dlq)
    × (dead_letter_queue payments_dlq ≡ none)
retries_return_example = retries_return second second_message second-retry

-- A first attempt that may be retried, over a broker that confirms.
abbrev outcome : Result (Unit {0})
outcome = err retryable_event

abbrev confirms : Message → Result (Unit {0})
confirms m = ok tt

after_process-settles_example :
    let h = after_process confirms process_event outcome in
    ((m : Message)
      → h.retried ≡ some m
      → (h.settlement ≡ some ack)
        × (m.body ≡ record process_event { attempt = 2 })
        × (1 < max_attempts)
        × (confirms m ≡ ok tt))
    × (h.settlement ≡ some ack → h.retried ≡ none → outcome ≡ ok tt)
    × (h.settlement ≡ some reject → (outcome ≡ err permanent_event) ⊎ (max_attempts ≤ 1))
    × (max_attempts ≤ 1 → outcome ≢ ok tt → h.settlement ≡ some reject)
    × (((m : Message) → confirms m ≡ ok tt)
        → 1 ≤ 1
        → 1 < max_attempts
        → outcome ≢ ok tt
        → outcome ≢ err permanent_event
        → is_some h.retried ≡ true)
after_process-settles_example =
    after_process-settles confirms process_event outcome (λ h. cc) (λ h. cc)

-- The processor can be retried twice, and then it is done.
abbrev third_time : ℕ → Result (Unit {0})
third_time k = if k == 3 then ok tt else err retryable_event

abbrev outcome_ok : Result (Unit {0})
outcome_ok = ok tt

third_time-not : (e : Error) (k : ℕ) → outcome_ok ≢ err e → outcome ≢ err e → third_time k ≢ err e
third_time-not e k a b = ground arith

journey-ends_example :
    (n : ℕ) × (1 ≤ n)
    × (n ≤ 3)
    × HasEnded third_time process_event
        (journey 7 third_time (published (attempt_of 1 process_event)))
        n
journey-ends_example =
    journey-ends third_time process_event 7 (λ k. third_time-not cancelled k (λ h. cc) (λ h. cc))
      (λ k. third_time-not base_exception k (λ h. cc) (λ h. cc)) (omega arith)
