-- ===== src/Worker/Payment.antt =====
-- app/worker/payment_processor.py, class `PaymentEventProcessor`.
use async_payment_processing.Prelude.{
  ℕ, Option, none, some, if◌then◌else◌, ok, err, breaker_open, Result, ◌>>=◌, provider_permanent,
  provider_unavailable, provider_ambiguous_outcome, permanent_event, retryable_event, Bool,
}
use async_payment_processing.Breaker
use async_payment_processing.Breaker.{Breaker}
use async_payment_processing.Schemas.{
  PaymentStatus, EventType, EventEnvelope, ProviderPaymentRequest, ProviderPaymentResponse,
  is_pending, provider_payment_request,
}
use async_payment_processing.Models.{Payment, Database}
use async_payment_processing.Repositories.Payments.{get_by_id}
use async_payment_processing.Repositories.Session.{
  Tx, commit, loads, save, save_with_event, final_status, webhook_event,
}

request_for : Option Payment → Result (Option ProviderPaymentRequest)
request_for none = err permanent_event
request_for (some p) =
    if is_pending p.status
    then (provider_payment_request p.id p.amount p.currency >>= λ r. ok (some r))
    else ok none

-- `_load_provider_request`
unfoldable pub load_provider_request : ℕ → Database → Result (Option ProviderPaymentRequest)
unfolding request_for get_by_id
load_provider_request payment_id db = request_for (get_by_id payment_id db.payments)

unknown_row : Tx → Option Payment → Database → Result (Unit {0}) × Database
unfolding commit
unknown_row tx none db = (err permanent_event, db)
unknown_row tx (some p) db =
    if is_pending p.status
    then commit tx tt (save tx (record p { status = PaymentStatus.unknown }) db) db
    else (ok tt, db)

-- `_mark_unknown`
unfoldable pub mark_unknown : Tx → ℕ → Database → Result (Unit {0}) × Database
unfolding unknown_row get_by_id
mark_unknown tx payment_id db = unknown_row tx (get_by_id payment_id db.payments) db

-- The row with the provider's answer and the id of its webhook event.
abbrev pub resolved : ℕ → ℕ → ProviderPaymentResponse → Payment → Payment
resolved processed_at webhook_event_id response p = record p {
  status = final_status response.status;
  provider_payment_id = some response.provider_payment_id;
  processed_at = some processed_at;
  webhook_event_id = some webhook_event_id;
}

result_row : Tx → ProviderPaymentResponse → Option Payment → Database → Result (Unit {0}) × Database
unfolding commit
result_row tx response none db = (err permanent_event, db)
result_row tx response (some p) db =
    if is_pending p.status
    then commit tx tt
        (save_with_event tx (resolved tx.now tx.uuid response p)
          (webhook_event tx.uuid p.id tx.now tx.now) db)
        db
    else (ok tt, db)

-- `_apply_provider_result`
unfoldable pub apply_provider_result :
    Tx → ℕ → ProviderPaymentResponse → Database → Result (Unit {0}) × Database
unfolding result_row get_by_id
apply_provider_result tx payment_id response db =
    result_row tx response (get_by_id payment_id db.payments) db

-- What one run of `process` meets: when the provider call begins and ends, its outcome, what others do
-- to the database and to the breaker while it is awaited, its last transaction, and whether the server
-- answers its first read.
pub record Env : Type 0 where
  pub started : ℕ
  pub ended : ℕ
  pub provider : ProviderPaymentRequest → Result ProviderPaymentResponse
  pub others : Database → Database
  pub other_calls : Breaker → Breaker
  pub tx : Tx
  pub reads : Bool

-- The `except` clauses around the provider call, and what follows it.
unfoldable pub after_provider :
    Tx → ℕ → Result ProviderPaymentResponse → Database → Result (Unit {0}) × Database
after_provider tx payment_id (ok response) db = apply_provider_result tx payment_id response db
after_provider tx payment_id (err breaker_open) db = (err retryable_event, db)
after_provider tx payment_id (err provider_unavailable) db = (err retryable_event, db)
after_provider tx payment_id (err provider_ambiguous_outcome) db = mark_unknown tx payment_id db
after_provider tx payment_id (err (provider_permanent status_code)) db = (err permanent_event, db)
after_provider tx payment_id (err e) db = (err e, db)

loaded :
    Env
    → ℕ
    → Result (Option ProviderPaymentRequest)
    → Database
    → Breaker
    → Result (Unit {0}) × Database × Breaker
loaded env payment_id (err e) db b = (err e, db, b)
loaded env payment_id (ok none) db b = (ok tt, db, b)
loaded env payment_id (ok (some request)) db b =
    let (response, b') =
      Breaker.call env.started (env.provider request) env.other_calls env.ended b in
    let (result, db') = after_provider env.tx payment_id response (env.others db) in
    (result, db', b')

-- `process`
unfoldable pub process :
    Env → EventEnvelope → Database → Breaker → Result (Unit {0}) × Database × Breaker
unfolding loaded
process env event db b = elim event.event_type [
  | EventType.payment_process_requested ↦
      loaded env event.payment_id (loads env.reads (load_provider_request event.payment_id db)) db b
  | EventType.webhook_delivery_requested ↦ (err permanent_event, db, b)
]
