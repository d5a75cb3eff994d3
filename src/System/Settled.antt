-- ===== src/System/Settled.antt =====
-- What an acknowledgement means: app/worker/consumer.py over app/worker/dispatcher.py.
use async_payment_processing.Prelude.{
  ◌+◌, ◌≤◌, ◌≡◌, refl, ◌⊎◌, inl, inr, ◌&&◌, some, List, arith, ◌==◌, leb, Option-cases, Bool-cases,
  ok, err, tally, Result, permanent_event,
}
use async_payment_processing.Schemas.{EventEnvelope, validate_envelope}
use async_payment_processing.Worker.Payment
use async_payment_processing.Worker.Webhook
use async_payment_processing.Worker.Dispatcher
use async_payment_processing.Worker.Dispatcher.{Worker}
use async_payment_processing.Worker.Publisher.{Message, publish_retry, retry_message}
use async_payment_processing.Worker.Consumer.{ack, handle, after_process}
use async_payment_processing.Flow.Handled.{IsHandled, process-handles}
use async_payment_processing.System.Step.{handle_payment_queue_message, IsLogged, is_attempt}

after_process-acks :
    (broker : Message → Result (Unit {0})) (event : EventEnvelope) (r : Result (Unit {0}))
    → (after_process broker event r).settlement ≡ some ack
    → (r ≡ ok tt)
      ⊎ ((m : Message) × ((after_process broker event r).retried ≡ some m)
          × (m.body ≡ record event { attempt = event.attempt + 1 }))
unfolding after_process publish_retry retry_message
after_process-acks broker event (ok done) h = inl refl
after_process-acks broker event (err permanent_event) h = absurd (ground arith)
after_process-acks broker event (err e) h =
    elim (Option-cases (after_process broker event (err e)).retried) [
      | inl none_retried ↦ absurd (ground arith)
      | inr (m, q) ↦ inr (m, q, ground arith)
    ]

-- If a delivery is acknowledged, then the retry that it has published is the next attempt, or its event
-- is handled in the database that the run left.
pub handle_payment_queue_message-acks :
    (log : List EventEnvelope) (confirms : Message → Result (Unit {0})) (payment_env : Payment.Env)
    (webhook_env : Webhook.Env) (event : EventEnvelope) (w : Worker)
    → let (h, w') = handle_payment_queue_message confirms payment_env webhook_env event w in
      h.settlement ≡ some ack
      → IsLogged log h.retried
      → (1 ≤ tally (is_attempt event.event_id (event.attempt + 1)) log)
        ⊎ IsHandled event.event_type event.payment_id w'.db
unfolding handle validate_envelope
handle_payment_queue_message-acks log confirms payment_env webhook_env event w h l =
    elim (Bool-cases (leb 1 event.attempt && (event.schema_version == 1))) [
      | inr bad ↦ absurd (ground arith)
      | inl good ↦
          elim (after_process-acks confirms event
            (Dispatcher.process payment_env webhook_env event w).0 (rw (good, handle) at h)) [
              | inl done ↦ inr (rw good (process-handles payment_env webhook_env event w done))
              | inr (m, retried, body) ↦ inl (rw body at (rw retried at (rw (good, handle) at l)))
            ]
    ]
