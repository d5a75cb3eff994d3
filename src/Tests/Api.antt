-- ===== src/Tests/Api.antt =====
-- Requests to the endpoints.
use async_payment_processing.Prelude.{
  ℕ, String, ◌≡◌, refl, ◌≢◌, ◌↔◌, ◌⊎◌, true, none, some, if◌then◌else◌, ok, unexpected, Option,
  false, [], err, Bool,
}
use async_payment_processing.Schemas.{
  PublicPaymentStatus, to_public_payment_status, validate_payment_create,
}
use async_payment_processing.Models.{Database}
use async_payment_processing.Models.Rows.{find}
use async_payment_processing.Repositories.Session.{Tx}
use async_payment_processing.Repositories.Payments.{get_by_idempotency_key, add}
use async_payment_processing.Repositories.Outbox.{add_event}
use async_payment_processing.Services.Create
use async_payment_processing.Api.Text.{strip, is_ascii}
use async_payment_processing.Api.Answer.{answered, http_error, raised, verify_api_key}
use async_payment_processing.Api.Access.{verify_api_key_lem}
use async_payment_processing.Api.Payments.{
  PaymentAccepted, Request, UrlParser, valid_key, valid_body, create_valid, create_stripped,
  create_payment, get_payment,
}
use async_payment_processing.Api.Middleware.{request_id, HttpExchange}
use async_payment_processing.Api.Application.{
  EndpointEnv, Call, gets_payment, key_of, app, app-guards, is_guarded, creates_unreadable,
}
use async_payment_processing.Api.RoundTrip.{create-get}
use async_payment_processing.Tests.Samples.{order, tx_at, hashing}
use async_payment_processing.Flow.Reach.{empty}

abbrev request : Request
request = record {
  x_api_key = some "secret";
  idempotency_key = some " order-123 ";
  body = some order;
}

abbrev answer : PaymentAccepted
answer = record { payment_id = 101; status = PublicPaymentStatus.pending; created_at = 1 }

abbrev parse : UrlParser
parse text = ok (record { text = text; username = none; password = none })

secret-ascii : is_ascii "secret" ≡ true
unfolding is_ascii
secret-ascii = refl

abbrev public_key : Option String
public_key = some "public"

abbrev secret_key : Option String
secret_key = some "secret"

verify_api_key_lem_example :
    ((verify_api_key "secret" public_key ≡ answered tt) ↔ (public_key ≡ secret_key))
    × (public_key ≡ none → verify_api_key "secret" public_key ≡ http_error 401)
    × ((key : String)
        → public_key ≡ some key
        → key ≢ "secret"
        → verify_api_key "secret" public_key
          ≡ (if is_ascii key then http_error 401 else raised unexpected))
verify_api_key_lem_example = verify_api_key_lem "secret" public_key secret-ascii

has_key : valid_key request.idempotency_key ≡ some " order-123 "
unfolding valid_key
has_key = refl

has_body : valid_body request.body ≡ some order
unfolding valid_body validate_payment_create
has_body = refl

none_yet : get_by_idempotency_key (strip " order-123 ") empty.payments ≡ none
unfolding get_by_idempotency_key
none_yet = refl

created_run :
    (create_payment hashing (tx_at 1) 50 (λ db. db) "secret" request empty).0 ≡ answered answer
unfolding create_payment verify_api_key is_ascii create_valid valid_key valid_body create_stripped
    strip Create.create_payment Create.build_request_fingerprint get_by_idempotency_key add find
    add_event to_public_payment_status
created_run = refl

create-get_example :
    let db' = (create_payment hashing (tx_at 1) 50 (λ db. db) "secret" request empty).1 in
    (get_payment parse "secret" (some "secret") 101 db'
      ≡ answered (record {
        payment_id = 101;
        amount = 150050;
        currency = order.currency;
        description = none;
        metadata = order.metadata;
        status = PublicPaymentStatus.pending;
        idempotency_key = strip " order-123 ";
        webhook_url = order.webhook_url;
        created_at = 1;
        processed_at = none;
      }))
    × ((tx' : Tx) (event_id' : ℕ) (others' : Database → Database)
        → create_payment hashing tx' event_id' others' "secret" request db'
          ≡ (answered answer, db'))
create-get_example =
    create-get hashing "secret" request " order-123 " order has_key has_body (tx_at 1) 50 (λ db. db)
      empty parse answer none_yet none_yet refl created_run

-- The white space around the key is taken off.
stripped : strip " order-123 " ≡ "order-123"
unfolding strip
stripped = refl

abbrev world : EndpointEnv
world = record {
  hashing = hashing;
  parse = parse;
  tx = tx_at 1;
  event_id = 50;
  others = λ db. db;
  connection = ok tt;
  is_os_error = false;
  docs_status = 200;
}

abbrev exchange : HttpExchange
exchange = record {
  x_request_id = some "mine";
  method = "POST";
  path = "/api/v1/payments";
  events = [];
}

abbrev wrong_key : Call
wrong_key = gets_payment public_key 101

app-guards_example :
    let (outcome, db') = app "secret" world "u1" exchange [] wrong_key empty in
    (key_of wrong_key ≢ secret_key
      → (db' ≡ empty)
        × (is_guarded wrong_key ≡ true
            → (outcome.result ≡ ok (401, request_id (some "mine") "u1"))
              ⊎ (outcome.result ≡ err unexpected)))
    × ((no_json : Bool) (key : Option String)
        → wrong_key ≡ creates_unreadable no_json key
        → (db' ≡ empty)
          × (outcome.result ≡ ok ((if no_json then 422 else 400), request_id (some "mine") "u1")))
    × ((code : ℕ) (id : String)
        → outcome.result ≡ ok (code, id)
        → id ≡ request_id (some "mine") "u1")
    × (outcome.context ≡ [])
app-guards_example = app-guards "secret" world "u1" exchange [] wrong_key empty secret-ascii
