-- ===== src/Clients/Provider.antt =====
-- app/clients/payment_provider.py, class `PaymentProviderClient`. Durations and readings of
-- `time.monotonic()` are whole ticks, and a reading never goes back.
use async_payment_processing.Prelude.{
  ℕ, String, Bool, ◌&&◌, Option, none, some, if◌then◌else◌, ◌==◌, ltb, leb, ◌>>◌, ok, err, Error,
  Result, raise_if, provider_permanent, provider_unavailable, provider_ambiguous_outcome,
  value_error, unexpected,
}
pub mod RetryAfter
pub mod Loop
pub mod Shape
pub mod Bounds
pub mod Retries
pub mod Source
use async_payment_processing.Schemas.{ProviderPaymentRequest, ProviderPaymentResponse}

pub record Config : Type 0 where
  pub request_timeout : ℕ
  pub max_attempts : ℕ
  pub retry_base_delay : ℕ
  pub retry_max_delay : ℕ
  pub retry_total_timeout : ℕ

-- `__init__`
unfoldable pub check_config : Config → Result Config
check_config c = do
  raise_if (c.request_timeout == 0) value_error
  raise_if (ltb c.max_attempts 1) value_error
  raise_if (ltb c.retry_max_delay c.retry_base_delay) value_error
  raise_if (c.retry_total_timeout == 0) value_error
  ok c

-- A Python float that stands for a number of seconds: no number, an infinity, below zero, or not.
pub data Seconds : Type 0 where
  nan infinity negative : Seconds
  finite : ℕ → Seconds

-- A response: its status code, the header `Retry-After`, and what `model_validate(response.json())`
-- makes of its body.
pub record Response : Type 0 where
  pub status_code : ℕ
  pub retry_after : Option String
  pub body : Option ProviderPaymentResponse

-- The exceptions of httpx that the client names, the TimeoutError of `asyncio.timeout`, and others.
pub data Outcome : Type 0 where
  response : Response → Outcome
  connect_error connect_timeout pool_timeout : Outcome
  read_timeout write_timeout read_error write_error remote_protocol_error : Outcome
  other_request_error timeout_error : Outcome
  raised : Error → Outcome

abbrev pub is_success : ℕ → Bool
is_success code = leb 200 code && ltb code 300

-- `_parse_success_response`
unfoldable pub parse_success_response :
    Option ProviderPaymentResponse → Result ProviderPaymentResponse
parse_success_response none = err provider_ambiguous_outcome
parse_success_response (some r) = ok r

lookup_body : Option ProviderPaymentResponse → Result (Option ProviderPaymentResponse)
lookup_body none = err provider_unavailable
lookup_body (some r) = ok (some r)

lookup_response : Response → Result (Option ProviderPaymentResponse)
unfolding lookup_body
lookup_response r =
    if r.status_code == 404
    then ok none
    else if is_success r.status_code
    then lookup_body r.body
    else if leb 500 r.status_code
    then err provider_unavailable
    else err (provider_permanent r.status_code)

-- `get_payment_by_idempotency_key`, on what its GET gives; a TimeoutError is no RequestError.
unfoldable pub lookup_result : Outcome → Result (Option ProviderPaymentResponse)
unfolding lookup_response
lookup_result (response r) = lookup_response r
lookup_result (raised e) = err e
lookup_result timeout_error = err unexpected
lookup_result _ = err provider_unavailable
