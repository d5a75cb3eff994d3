-- ===== src/Clients/Webhook.antt =====
-- app/clients/webhook.py, class `WebhookClient`.
use async_payment_processing.Prelude.{
  ℕ, String, Bool, ◌&&◌, ◌||◌, List, [], ◌∷◌, if◌then◌else◌, ◌==◌, ltb, leb, ok, err, Error, Result,
  webhook_retryable, webhook_permanent, value_error,
}
use async_payment_processing.Schemas.Webhook.{WebhookPayload}

-- `__init__`
unfoldable pub check_timeout : ℕ → Result ℕ
check_timeout timeout = if timeout == 0 then err value_error else ok timeout

-- The request that `deliver` posts.
pub record Request : Type 0 where
  pub url : String
  pub payload : WebhookPayload
  pub webhook_id : ℕ
  pub webhook_attempt : ℕ
  pub timeout : ℕ

-- What httpx makes of it: a response's status code, a RequestError, or another exception.
pub data Outcome : Type 0 where
  response : (status_code : ℕ) → Outcome
  request_error : Outcome
  raised : Error → Outcome

-- `status_code in (408, 429) or 500 <= status_code < 600`
abbrev pub is_retryable : ℕ → Bool
is_retryable code = ((code == 408) || (code == 429)) || (leb 500 code && ltb code 600)

abbrev pub is_success : ℕ → Bool
is_success code = leb 200 code && ltb code 300

unfoldable pub classify : Outcome → Result (Unit {0})
classify request_error = err webhook_retryable
classify (raised e) = err e
classify (response code) =
    if is_success code
    then ok tt
    else if is_retryable code
    then err webhook_retryable
    else err webhook_permanent

-- `deliver`: the requests that were posted, and the result.
unfoldable pub deliver :
    (Request → Outcome) → ℕ → String → WebhookPayload → ℕ → ℕ → List Request × Result (Unit {0})
unfolding classify
deliver http timeout url payload event_id attempt =
    if ltb attempt 1
    then ([], err value_error)
    else let r : Request = record {
      url = url;
      payload = payload;
      webhook_id = event_id;
      webhook_attempt = attempt;
      timeout = timeout;
    } in
      (r ∷ [], classify (http r))
