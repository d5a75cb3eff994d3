-- ===== src/Flow/Complete.antt =====
-- A payment on its way to the end: app/worker/payment_processor.py and app/worker/webhook_processor.py.
use async_payment_processing.Prelude.{
  ℕ, ◌≡◌, refl, ◌∙◌, true, false, some, ok, Result, inl, inr, none, [], ◌∷◌, ◌++◌, arith,
  Option-cases, ap,
}
use async_payment_processing.Breaker
use async_payment_processing.Breaker.{Breaker, State}
use async_payment_processing.Schemas.{
  EventEnvelope, EventType, ProviderPaymentRequest, ProviderPaymentResponse, ProviderPaymentStatus,
  is_pending, is_terminal,
}
use async_payment_processing.Schemas.{dump}
use async_payment_processing.Models.{OutboxEvent, Payment as PaymentRow, Database}
use async_payment_processing.Models.Rows.{find}
use async_payment_processing.Repositories.Payments.{clashes_other}
use async_payment_processing.Repositories.Outbox.{has_event}
use async_payment_processing.Repositories.Session.{final_status, loads-read}
use async_payment_processing.Worker.Payment
use async_payment_processing.Worker.Payment.{load_provider_request, resolved, apply_provider_result}
use async_payment_processing.Worker.Webhook
use async_payment_processing.Worker.Webhook.{WebhookDelivery}
use async_payment_processing.Flow.{IsSound}
use async_payment_processing.Flow.Process.{apply_provider_result-IsSound}
use async_payment_processing.Flow.Origin.{meant_status}
use async_payment_processing.Flow.Ready.{load_provider_request-ready, apply_provider_result-settles}
use async_payment_processing.Flow.Sent.{process-sends_once}

-- A row with a provider's answer, field by field.
abbrev pub row_with_answer : ℕ → ℕ → ProviderPaymentResponse → PaymentRow → PaymentRow
row_with_answer at event_id response p = record p {
  status = meant_status response.status;
  provider_payment_id = some response.provider_payment_id;
  processed_at = some at;
  webhook_event_id = some event_id;
}

pub final_status-meant : (s : ProviderPaymentStatus) → final_status s ≡ meant_status s
final_status-meant ProviderPaymentStatus.approved = refl
final_status-meant ProviderPaymentStatus.declined = refl

resolved-meant :
    (at event_id : ℕ) (response : ProviderPaymentResponse) (p : PaymentRow)
    → resolved at event_id response p ≡ row_with_answer at event_id response p
resolved-meant at event_id response p =
    ap (λ s. record (row_with_answer at event_id response p) { status = s })
      (final_status-meant response.status)

-- The envelope of a webhook's first delivery, and the event that carries it to the outbox.
abbrev pub webhook_envelope : ℕ → ℕ → ℕ → EventEnvelope
webhook_envelope event_id payment_id at = record {
  event_id = event_id;
  event_type = EventType.webhook_delivery_requested;
  schema_version = 1;
  payment_id = payment_id;
  attempt = 1;
  occurred_at = at;
}

abbrev pub event_with : EventEnvelope → ℕ → OutboxEvent
event_with m created_at = record {
  id = m.event_id;
  event_type = m.event_type;
  payment_id = m.payment_id;
  payload = dump m;
  created_at = created_at;
  published_at = none;
}

-- A run about a pending payment in which nothing fails: the breaker is closed, the provider answers, the
-- row is as it was when the call ends, the server is there, and neither the provider's id nor the
-- fresh event id is taken.
pub record IsAnswered (m : ℕ) (env : Payment.Env) (event : EventEnvelope) (db : Database)
    (b : Breaker) (p : PaymentRow) (response : ProviderPaymentResponse) : Type 0 where
  pub sound : IsSound m db
  pub sound_later : IsSound m (env.others db)
  pub asks : event.event_type ≡ EventType.payment_process_requested
  pub found : find event.payment_id db.payments ≡ some p
  pub found_later : find event.payment_id (env.others db).payments ≡ some p
  pub waits : is_pending p.status ≡ true
  pub closed : b.state ≡ State.closed
  pub answers : (d : ProviderPaymentRequest) → env.provider d ≡ ok response
  pub reads : env.reads ≡ true
  pub alive : env.tx.alive ≡ true
  pub free :
      clashes_other (row_with_answer env.tx.now env.tx.uuid response p) (env.others db).payments
      ≡ false
  pub fresh : has_event env.tx.uuid (env.others db).outbox ≡ false

pub closed-call {ℓ} :
    {A : Type ℓ} (now later : ℕ) (result : Result A) (others : Breaker → Breaker) (b : Breaker)
    → b.state ≡ State.closed
    → (Breaker.call now result others later b).0 ≡ result
unfolding Breaker.call
closed-call now later result others b c = rw c refl

module _ (m : ℕ) (env : Payment.Env) (event : EventEnvelope) (db : Database) (b : Breaker)
    (p : PaymentRow) (response : ProviderPaymentResponse)
    (h : IsAnswered m env event db b p response) where
  process-applies :
      let (r, db', b') = Payment.process env event db b in
      let (r', db'') = apply_provider_result env.tx event.payment_id response (env.others db) in
      (r ≡ r') × (db' ≡ db'')
  unfolding Payment.process Payment.after_provider
  process-applies =
      let request : ProviderPaymentRequest = record {
        payment_id = event.payment_id;
        amount = p.amount;
        currency = p.currency;
      } in
      let ready = load_provider_request-ready m event.payment_id db p h.sound h.found h.waits in
      let calls =
        closed-call env.started env.ended (env.provider request) env.other_calls b h.closed
        ∙ h.answers request in
      rw
        (
          h.asks,
          loads-read env.reads (load_provider_request event.payment_id db) h.reads,
          ready,
          calls,
          Payment.process,
        )
        (refl, refl)

  -- A row that is pending has no webhook sent.
  unsent : p.webhook_sent_at ≡ none
  unsent = elim (Option-cases p.webhook_sent_at) [
    | inl e ↦ e
    | inr (at, e) ↦
        let final = (h.sound.rows event.payment_id p h.found).sent (rw e refl) in
        absurd (ground (arith, h.waits, final))
  ]

-- What the row of a payment becomes by an answer, and by the delivery of its webhook.
abbrev pub answered_row : Payment.Env → ProviderPaymentResponse → PaymentRow → PaymentRow
answered_row env response p = record (row_with_answer env.tx.now env.tx.uuid response p) {
  updated_at = env.tx.db_now;
}

abbrev pub told_row : Webhook.Env → PaymentRow → PaymentRow
told_row env q = record q { webhook_sent_at = some env.tx.now; updated_at = env.tx.db_now }

-- The run of the webhook's event that follows: the target takes the delivery, the row is as the first run
-- has left it when the delivery ends, the server is there, and the row clashes with no other.
pub record IsTaken (env : Webhook.Env) (told : EventEnvelope) (db : Database) (q : PaymentRow)
    : Type 0 where
  pub takes : (d : WebhookDelivery) → env.deliver d told.event_id told.attempt ≡ ok tt
  pub found_later : find told.payment_id (env.others db).payments ≡ some q
  pub reads : env.reads ≡ true
  pub alive : env.tx.alive ≡ true
  pub free :
      clashes_other (record q { webhook_sent_at = some env.tx.now }) (env.others db).payments
      ≡ false

-- A pending payment is completed by two runs of the worker in which nothing fails, on sound databases and
-- behind a closed breaker: the run of its event, which adds exactly one event to the outbox, and then
-- the run of the envelope that this event holds, the first delivery of the payment's webhook. Both
-- runs end well, and the row that is found differs from the one before in this: it is succeeded if the
-- provider has approved and failed if it has declined, and it holds the provider's id, the id of the
-- event and the dates of the answer, of the sending and of the last change.
pub process-completes :
    (m : ℕ) (env : Payment.Env) (webhook_env : Webhook.Env) (event : EventEnvelope) (db : Database)
    (b : Breaker) (p : PaymentRow) (response : ProviderPaymentResponse)
    → IsAnswered m env event db b p response
    → let (r, db', b') = Payment.process env event db b in
      let told = webhook_envelope env.tx.uuid event.payment_id env.tx.now in
      let q = answered_row env response p in
      IsTaken webhook_env told db' q
      → let (r', db'') = Webhook.process webhook_env told db' in
        (r ≡ ok tt)
        × (db'.outbox ≡ (env.others db).outbox ++ event_with told env.tx.now ∷ [])
        × (r' ≡ ok tt)
        × (find event.payment_id db''.payments ≡ some (told_row webhook_env q))
process-completes m env webhook_env event db b p response h t =
    let (same_r, same_db) = process-applies m env event db b p response h in
    let row = resolved-meant env.tx.now env.tx.uuid response p in
    let (done, found, added) =
      apply_provider_result-settles env.tx event.payment_id response (env.others db) p h.found_later
        h.waits h.alive (rw row h.free) h.fresh in
    let sound =
      apply_provider_result-IsSound m env.tx event.payment_id response (env.others db)
        h.sound_later in
    let (sends, sent, again) =
      process-sends_once m webhook_env (webhook_envelope env.tx.uuid event.payment_id env.tx.now)
        (Payment.process env event db b).1 (answered_row env response p) (rw same_db sound) refl
        (rw same_db
          (found ∙ ap (λ (q : PaymentRow). some (record q { updated_at = env.tx.db_now })) row))
        (final response.status) (unsent m env event db b p response h) refl t.takes t.found_later
        t.reads t.alive t.free in
    (same_r ∙ done, rw same_db added, sends, sent)
  where
    final : (s : ProviderPaymentStatus) → is_terminal (meant_status s) ≡ true
    final s = ground arith
