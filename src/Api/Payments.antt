-- ===== src/Api/Payments.antt =====
-- app/api/payments.py: both endpoints, behind the API key of their router.
use async_payment_processing.Prelude.{
  ℕ, String, ◌&&◌, Option, none, some, if◌then◌else◌, leb, ok, err, Result, idempotency_conflict,
}
use Prim.Native.String.{count}
use async_payment_processing.Schemas.{
  Currency, Members, HttpUrl, PublicPaymentStatus, PaymentCreate, validate_payment_create,
  to_public_payment_status,
}
use async_payment_processing.Models.{Payment, Database}
use async_payment_processing.Repositories.Session.{Tx}
use async_payment_processing.Services.Create
use async_payment_processing.Services.Create.{Hashing, PaymentCreationResult}
use async_payment_processing.Api.Text.{strip, is_empty}
use async_payment_processing.Api.Answer.{Answer, answered, http_error, raised, verify_api_key}

pub record PaymentAccepted : Type 0 where
  pub payment_id : ℕ
  pub status : PublicPaymentStatus
  pub created_at : ℕ

pub record PaymentDetail : Type 0 where
  pub payment_id : ℕ
  pub amount : ℕ
  pub currency : Currency
  pub description : Option String
  pub metadata : Members
  pub status : PublicPaymentStatus
  pub idempotency_key : String
  pub webhook_url : HttpUrl
  pub created_at : ℕ
  pub processed_at : Option ℕ

abbrev pub accepted : Payment → PaymentAccepted
accepted p = record {
  payment_id = p.id;
  status = to_public_payment_status p.status;
  created_at = p.created_at;
}

-- What a request to create a payment holds, once FastAPI has read its body as JSON: its headers, and
-- this JSON as far as it has the fields of `PaymentCreate`. A body that is no JSON does not come here.
pub record Request : Type 0 where
  pub x_api_key : Option String
  pub idempotency_key : Option String
  pub body : Option PaymentCreate

-- What the signature asks of the header `Idempotency-Key` and of the body; FastAPI answers 422.
unfoldable pub valid_key : Option String → Option String
valid_key none = none
valid_key (some key) = if leb 1 (count key) && leb (count key) 255 then some key else none

unfoldable pub valid_body : Option PaymentCreate → Option PaymentCreate
unfolding validate_payment_create
valid_body none = none
valid_body (some d) = elim (validate_payment_create d) [ ok d' ↦ some d' | err e ↦ none ]

-- The handling of IdempotencyConflictError.
abbrev pub created_answer : Result PaymentCreationResult → Answer PaymentAccepted
created_answer (ok r) = answered (accepted r.payment)
created_answer (err idempotency_conflict) = http_error 409
created_answer (err e) = raised e

module _ (h : Hashing) (tx : Tx) (event_id : ℕ) (others : Database → Database) where
  -- The body of the endpoint.
  unfoldable pub create_stripped :
      String → PaymentCreate → Database → Answer PaymentAccepted × Database
  create_stripped normalized_key d db =
      if is_empty normalized_key
      then (http_error 422, db)
      else let (result, db') = Create.create_payment h tx event_id others d normalized_key db in
        (created_answer result, db')

  unfoldable pub create_valid :
      Option String → Option PaymentCreate → Database → Answer PaymentAccepted × Database
  create_valid none d db = (http_error 422, db)
  create_valid (some key) none db = (http_error 422, db)
  create_valid (some key) (some d) db = create_stripped (strip key) d db

  -- `create_payment`
  unfoldable pub create_payment : String → Request → Database → Answer PaymentAccepted × Database
  create_payment api_key request db = elim (verify_api_key api_key request.x_api_key) [
    | answered done ↦ create_valid (valid_key request.idempotency_key) (valid_body request.body) db
    | http_error code ↦ (http_error code, db)
    | raised e ↦ (raised e, db)
  ]

-- `AnyHttpUrl(...)` of a stored text
abbrev pub UrlParser : Type 0
UrlParser = String → Result HttpUrl

detail_of : Payment → Result HttpUrl → Answer PaymentDetail
detail_of p (err e) = raised e
detail_of p (ok url) = answered (record {
  payment_id = p.id;
  amount = p.amount;
  currency = p.currency;
  description = p.description;
  metadata = p.payment_metadata;
  status = to_public_payment_status p.status;
  idempotency_key = p.idempotency_key;
  webhook_url = url;
  created_at = p.created_at;
  processed_at = p.processed_at;
})

found_detail : UrlParser → Option Payment → Answer PaymentDetail
unfolding detail_of
found_detail parse none = http_error 404
found_detail parse (some p) = detail_of p (parse p.webhook_url)

-- `get_payment`
unfoldable pub get_payment :
    UrlParser → String → Option String → ℕ → Database → Answer PaymentDetail
unfolding found_detail
get_payment parse api_key x_api_key payment_id db = elim (verify_api_key api_key x_api_key) [
  | answered done ↦ found_detail parse (Create.get_payment payment_id db)
  | http_error code ↦ http_error code
  | raised e ↦ raised e
]
