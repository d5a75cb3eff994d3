-- ===== src/MockProvider/Payments.antt =====
-- mock-provider/app/main.py, `process_payment` and `get_payment_by_idempotency_key`, and the schemas of
-- mock-provider/app/schemas.py that they use. A handler is cut where it awaits.
use async_payment_processing.Prelude.{
  ℕ, Bool, true, false, ◌&&◌, Option, none, some, if◌then◌else◌, ◌==◌,
}
use async_payment_processing.Prelude.Maps.{update}
use async_payment_processing.Schemas.{Currency, ProviderPaymentStatus}

-- `MockScenario`
pub data Scenario : Type 0 where
  approved declined error_before_processing timeout_before_processing : Scenario
  timeout_after_processing malformed_response : Scenario

pub record ProcessPaymentRequest : Type 0 where
  pub payment_id : ℕ
  pub amount : ℕ
  pub currency : Currency

pub record ProcessPaymentResponse : Type 0 where
  pub provider_payment_id : ℕ
  pub status : ProviderPaymentStatus

pub record IdempotencyRecord : Type 0 where
  pub request : ProcessPaymentRequest
  pub response : ProcessPaymentResponse

-- `_idempotency_records`
abbrev pub Records : Type 0
Records = ℕ → Option IdempotencyRecord

-- What a request is answered: an HTTPException, a response, or one without its id.
pub data Reply : Type 0 where
  http_error : (status_code : ℕ) → Reply
  replied : ProcessPaymentResponse → Reply
  malformed : ProcessPaymentResponse → Reply

-- Where a handler awaits: the sleep before a 504, the sleep before the lock, the lock with the entry
-- that it has got, and the sleep before a response.
pub data Phase : Type 0 where
  failing sleeping : Phase
  waiting : (entry : ℕ) → Phase
  delayed : Reply → Phase

-- The part before the first await: an answer, a sleep, or the way to the lock.
pub data Begun : Type 0 where
  answered : Reply → Begun
  sleeps : Phase → Begun
  locks : Begun

begun_scenario : Option Scenario → Begun
begun_scenario none = sleeps sleeping
begun_scenario (some Scenario.error_before_processing) = answered (http_error 503)
begun_scenario (some Scenario.timeout_before_processing) = sleeps failing
begun_scenario (some s) = locks

unfoldable pub begin : ProcessPaymentRequest → ℕ → Option Scenario → Begun
unfolding begun_scenario
begin payment idempotency_key scenario =
    if idempotency_key == payment.payment_id
    then begun_scenario scenario
    else answered (http_error 422)

abbrev pub effective_scenario : Option Scenario → Option Scenario → Option Scenario
effective_scenario none default = default
effective_scenario (some s) default = some s

abbrev pub same_currency : Currency → Currency → Bool
same_currency Currency.rub Currency.rub = true
same_currency Currency.usd Currency.usd = true
same_currency Currency.eur Currency.eur = true
same_currency _ _ = false

abbrev pub same_request : ProcessPaymentRequest → ProcessPaymentRequest → Bool
same_request a b =
    (a.payment_id == b.payment_id) && (a.amount == b.amount) && same_currency a.currency b.currency

-- `approves` is `random.random() < 0.90`.
abbrev pub provider_status : Option Scenario → Bool → ProviderPaymentStatus
provider_status (some Scenario.declined) approves = ProviderPaymentStatus.declined
provider_status (some Scenario.approved) approves = ProviderPaymentStatus.approved
provider_status (some Scenario.timeout_after_processing) approves = ProviderPaymentStatus.approved
provider_status (some Scenario.malformed_response) approves = ProviderPaymentStatus.approved
provider_status _ approves =
    if approves then ProviderPaymentStatus.approved else ProviderPaymentStatus.declined

-- How the handler goes on after the lock: with its answer, or with a sleep before it.
pub data Served : Type 0 where
  answers : Reply → Served
  delays : Reply → Served

unfoldable pub new_answer : Option Scenario → ProcessPaymentResponse → Served
new_answer (some Scenario.timeout_after_processing) r = delays (replied r)
new_answer (some Scenario.malformed_response) r = answers (malformed r)
new_answer _ r = answers (replied r)

-- Under the lock, with the record that is there.
unfoldable pub serve_record :
    ProcessPaymentRequest
    → Option Scenario
    → ProcessPaymentResponse
    → Option IdempotencyRecord
    → Records
    → Served × Records
serve_record payment scenario response (some existing) records =
    if same_request existing.request payment
    then (answers (replied existing.response), records)
    else (answers (http_error 409), records)
serve_record payment scenario response none records = (
  new_answer scenario response,
  update records payment.payment_id (some (record { request = payment; response = response })),
)

-- `uuid` is the `uuid4()` of a new response.
unfoldable pub serve :
    ProcessPaymentRequest → Option Scenario → ℕ → Bool → Records → Served × Records
unfolding serve_record
serve payment scenario uuid approves records =
    serve_record payment scenario
      (record { provider_payment_id = uuid; status = provider_status scenario approves })
      (records payment.payment_id) records

looked_up : Option IdempotencyRecord → Reply
looked_up none = http_error 404
looked_up (some existing) = replied existing.response

-- `get_payment_by_idempotency_key`
unfoldable pub look_up : ℕ → Records → Reply
unfolding looked_up
look_up idempotency_key records = looked_up (records idempotency_key)
