-- ===== src/Worker/Webhook.antt =====
-- app/worker/webhook_processor.py, class `WebhookEventProcessor`.
use async_payment_processing.Prelude.{
  ℕ, String, not, Option, none, some, if◌then◌else◌, is_some, equals_some, ◌>>=◌, ok, err, Result,
  webhook_retryable, webhook_permanent, permanent_event, retryable_event, Bool,
}
use async_payment_processing.Schemas.{PaymentStatus, EventType, EventEnvelope, is_terminal}
use async_payment_processing.Schemas.Webhook.{WebhookEventType, WebhookPayload, validate_payload}
use async_payment_processing.Models.{Payment, Database}
use async_payment_processing.Repositories.Payments.{get_by_id}
use async_payment_processing.Repositories.Session.{Tx, commit, loads, save}

pub record WebhookDelivery : Type 0 where
  pub url : String
  pub payload : WebhookPayload

-- `payment.status == PaymentStatus.SUCCEEDED`
abbrev pub webhook_event_type : PaymentStatus → WebhookEventType
webhook_event_type PaymentStatus.succeeded = WebhookEventType.payment_succeeded
webhook_event_type _ = WebhookEventType.payment_failed

delivery_at : ℕ → Payment → Option ℕ → Result (Option WebhookDelivery)
unfolding validate_payload
delivery_at event_id p none = err permanent_event
delivery_at event_id p (some processed_at) =
    validate_payload (record {
      event_id = event_id;
      event_type = webhook_event_type p.status;
      payment_id = p.id;
      status = p.status;
      amount = p.amount;
      currency = p.currency;
      processed_at = processed_at;
      metadata = p.payment_metadata;
    })
    >>= λ payload. ok (some (record { url = p.webhook_url; payload = payload }))

delivery_of : EventEnvelope → Option Payment → Result (Option WebhookDelivery)
unfolding delivery_at
delivery_of event none = err permanent_event
delivery_of event (some p) =
    if is_some p.webhook_sent_at
    then ok none
    else if not (is_terminal p.status)
    then err permanent_event
    else if not (equals_some p.webhook_event_id event.event_id)
    then err permanent_event
    else delivery_at event.event_id p p.processed_at

-- `_load_delivery`; a row without `webhook_event_id` fails the same way as one with another.
unfoldable pub load_delivery : EventEnvelope → Database → Result (Option WebhookDelivery)
unfolding delivery_of get_by_id
load_delivery event db = delivery_of event (get_by_id event.payment_id db.payments)

sent_row : Tx → ℕ → Option Payment → Database → Result (Unit {0}) × Database
unfolding commit
sent_row tx event_id none db = (err permanent_event, db)
sent_row tx event_id (some p) db =
    if is_some p.webhook_sent_at
    then (ok tt, db)
    else if not (equals_some p.webhook_event_id event_id)
    then (err permanent_event, db)
    else if not (is_terminal p.status)
    then (err permanent_event, db)
    else commit tx tt (save tx (record p { webhook_sent_at = some tx.now }) db) db

-- `_mark_sent`
unfoldable pub mark_sent : Tx → ℕ → ℕ → Database → Result (Unit {0}) × Database
unfolding sent_row get_by_id
mark_sent tx payment_id event_id db = sent_row tx event_id (get_by_id payment_id db.payments) db

-- What one run meets: the outcome of the delivery, what others commit meanwhile, the transaction,
-- and whether the server answers the first read.
pub record Env : Type 0 where
  pub deliver : WebhookDelivery → ℕ → ℕ → Result (Unit {0})
  pub others : Database → Database
  pub tx : Tx
  pub reads : Bool

unfoldable pub after_delivery :
    Tx → EventEnvelope → Result (Unit {0}) → Database → Result (Unit {0}) × Database
after_delivery tx event (ok done) db = mark_sent tx event.payment_id event.event_id db
after_delivery tx event (err webhook_retryable) db = (err retryable_event, db)
after_delivery tx event (err webhook_permanent) db = (err permanent_event, db)
after_delivery tx event (err e) db = (err e, db)

loaded :
    Env → EventEnvelope → Result (Option WebhookDelivery) → Database → Result (Unit {0}) × Database
loaded env event (err e) db = (err e, db)
loaded env event (ok none) db = (ok tt, db)
loaded env event (ok (some d)) db =
    after_delivery env.tx event (env.deliver d event.event_id event.attempt) (env.others db)

-- `process`
unfoldable pub process : Env → EventEnvelope → Database → Result (Unit {0}) × Database
unfolding loaded
process env event db = elim event.event_type [
  | EventType.webhook_delivery_requested ↦
      loaded env event (loads env.reads (load_delivery event db)) db
  | EventType.payment_process_requested ↦ (err permanent_event, db)
]
