-- ===== src/Worker/Dispatcher.antt =====
-- app/worker/dispatcher.py, class `WorkerEventDispatcher`: one processor for each type of event.
use async_payment_processing.Prelude.{Result}
use async_payment_processing.Breaker.{Breaker}
use async_payment_processing.Schemas.{EventType, EventEnvelope}
use async_payment_processing.Models.{Database}
use async_payment_processing.Worker.Payment
use async_payment_processing.Worker.Webhook

-- The state that the processors share.
pub record Worker : Type 0 where
  pub db : Database
  pub breaker : Breaker

by_payment : Payment.Env → EventEnvelope → Worker → Result (Unit {0}) × Worker
by_payment env event w =
    let (r, db', b') = Payment.process env event w.db w.breaker in
    (r, record { db = db'; breaker = b' })

by_webhook : Webhook.Env → EventEnvelope → Worker → Result (Unit {0}) × Worker
by_webhook env event w = let (r, db') = Webhook.process env event w.db in (r, record w { db = db' })

-- `process`
unfoldable pub process :
    Payment.Env → Webhook.Env → EventEnvelope → Worker → Result (Unit {0}) × Worker
unfolding by_payment by_webhook
process payment_env webhook_env event w = elim event.event_type [
  | EventType.payment_process_requested ↦ by_payment payment_env event w
  | EventType.webhook_delivery_requested ↦ by_webhook webhook_env event w
]
