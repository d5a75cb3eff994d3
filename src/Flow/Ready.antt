-- ===== src/Flow/Ready.antt =====
-- What the processors of the worker do on a sound database: app/worker/payment_processor.py and
-- app/worker/webhook_processor.py.
use async_payment_processing.Prelude.{
  ℕ, ◌≡◌, true, false, none, some, [], ◌∷◌, ◌++◌, arith, ok, refl, inl, inr, Option-cases,
}
use async_payment_processing.Breaker.{Breaker}
use async_payment_processing.Schemas.{
  EventEnvelope, EventType, ProviderPaymentResponse, is_pending, is_terminal,
  provider_payment_request,
}
use async_payment_processing.Schemas.Webhook.{validate_payload}
use async_payment_processing.Models.{Payment, Database}
use async_payment_processing.Models.Rows.{find, find-replace, find-id}
use async_payment_processing.Repositories.Payments.{update, clashes_other}
use async_payment_processing.Repositories.Outbox.{add_event, has_event}
use async_payment_processing.Repositories.Session.{
  Tx, commit, save_with_event, webhook_event, loads,
}
use async_payment_processing.Worker.Payment
use async_payment_processing.Worker.Payment.{
  load_provider_request, resolved, mark_unknown, apply_provider_result,
}
use async_payment_processing.Worker.Webhook.{WebhookDelivery, webhook_event_type, load_delivery}
use async_payment_processing.Flow.{IsSound}

-- On a sound database a payment that is pending is always put to the provider, with its own id and
-- amount: the validation of the request never fails.
pub load_provider_request-ready :
    (m k : ℕ) (db : Database) (p : Payment)
    → IsSound m db
    → find k db.payments ≡ some p
    → is_pending p.status ≡ true
    → load_provider_request k db
      ≡ ok (some (record { payment_id = k; amount = p.amount; currency = p.currency }))
unfolding load_provider_request provider_payment_request
load_provider_request-ready m k db p h f t =
    let row = h.rows k p f in ground (arith, f, t, row.payable, find-id k db.payments p f)

-- A repeated event for a payment that is no longer pending is acknowledged with no call of the provider
-- and no change of the database or of the breaker.
pub process-repeated :
    (env : Payment.Env) (event : EventEnvelope) (db : Database) (b : Breaker) (p : Payment)
    → event.event_type ≡ EventType.payment_process_requested
    → find event.payment_id db.payments ≡ some p
    → is_pending p.status ≡ false
    → env.reads ≡ true
    → Payment.process env event db b ≡ (ok tt, db, b)
unfolding Payment.process load_provider_request loads
process-repeated env event db b p t f done up = ground arith

-- The provider's answer about a pending payment is stored whole: if the server is there and neither the
-- provider's id nor the fresh event id is taken, the row gets its final status, the provider's id, the
-- date and the event id, and exactly one event, with this id, is added to the outbox.
pub apply_provider_result-settles :
    (tx : Tx) (k : ℕ) (response : ProviderPaymentResponse) (db : Database) (p : Payment)
    → find k db.payments ≡ some p
    → is_pending p.status ≡ true
    → tx.alive ≡ true
    → clashes_other (resolved tx.now tx.uuid response p) db.payments ≡ false
    → has_event tx.uuid db.outbox ≡ false
    → let (result, db') = apply_provider_result tx k response db in
      (result ≡ ok tt)
      × (find k db'.payments
          ≡ some (record (resolved tx.now tx.uuid response p) { updated_at = tx.db_now }))
      × (db'.outbox ≡ db.outbox ++ webhook_event tx.uuid k tx.now tx.now ∷ [])
unfolding apply_provider_result save_with_event update add_event commit
apply_provider_result-settles tx k response db p f t up free fresh =
    let same = find-id k db.payments p f in
    rw (f, t, free, fresh, up)
      (
        refl,
        ground (
          arith,
          same,
          f,
          find-replace k (record (resolved tx.now tx.uuid response p) { updated_at = tx.db_now })
              db.payments,
        ),
        rw same,
      )

abbrev delivery : EventEnvelope → Payment → ℕ → WebhookDelivery
delivery event p at = record {
  url = p.webhook_url;
  payload = record {
    event_id = event.event_id;
    event_type = webhook_event_type p.status;
    payment_id = p.id;
    status = p.status;
    amount = p.amount;
    currency = p.currency;
    processed_at = at;
    metadata = p.payment_metadata;
  };
}

-- On a sound database the webhook of a payment with a final status that was not sent is always ready
-- under the event that was stored for it: the payload is valid and says the status of the row.
pub load_delivery-ready :
    (m : ℕ) (event : EventEnvelope) (db : Database) (p : Payment)
    → IsSound m db
    → find event.payment_id db.payments ≡ some p
    → is_terminal p.status ≡ true
    → p.webhook_sent_at ≡ none
    → p.webhook_event_id ≡ some event.event_id
    → (d : WebhookDelivery) × (load_delivery event db ≡ ok (some d))
      × (d.url ≡ p.webhook_url)
      × (validate_payload d.payload ≡ ok d.payload)
      × (d.payload.status ≡ p.status)
      × (d.payload.amount ≡ p.amount)
      × (d.payload.payment_id ≡ event.payment_id)
unfolding load_delivery validate_payload
load_delivery-ready m event db p h f t unsent named = elim (Option-cases p.processed_at) [
  | inl e ↦ absurd (ground (arith, (h.rows event.payment_id p f).dated))
  | inr (at, e) ↦
      let row = h.rows event.payment_id p f in
      let d : WebhookDelivery = delivery event p at in
      (
        d,
        ground (arith, row.payable),
        refl,
        ground (arith, row.payable),
        refl,
        refl,
        find-id event.payment_id db.payments p f,
      )
]
