-- ===== src/Api/RoundTrip.antt =====
-- What a client reads after it has created a payment, and when it asks again: app/api/payments.py.
use async_payment_processing.Prelude.{
  ℕ, String, ◌≡◌, refl, inl, inr, false, none, some, arith, Bool-cases, ok, err, Result, sym, ap,
  ◌∙◌,
}
use text.Mathlib.TextPositions.{eq_refl}
use async_payment_processing.Schemas.{PaymentCreate, PublicPaymentStatus, to_public_payment_status}
use async_payment_processing.Models.{Payment, Database}
use async_payment_processing.Repositories.Payments.{get_by_idempotency_key, get_by_id}
use async_payment_processing.Repositories.Session.{Tx}
use async_payment_processing.Services.Create
use async_payment_processing.Services.Create.{
  build_request_fingerprint, Hashing, PaymentCreationResult, new_payment,
}
use async_payment_processing.Services.Create.Idempotency.{create_payment-again}
use async_payment_processing.Services.Create.Stored.{create_payment-stores, IsStored}
use async_payment_processing.Api.Text.{strip, is_empty}
use async_payment_processing.Api.Answer.{answered, Answer-cases, verify_api_key}
use async_payment_processing.Api.Payments.{
  PaymentAccepted, PaymentDetail, Request, UrlParser, accepted, created_answer, valid_key,
  valid_body, create_valid, create_stripped, create_payment, get_payment,
}

created_answer-answered :
    (r : Result PaymentCreationResult) (a : PaymentAccepted)
    → created_answer r ≡ answered a
    → (c : PaymentCreationResult) × (r ≡ ok c) × (a ≡ accepted c.payment)
created_answer-answered (ok c) a q = (c, refl, ground arith)
created_answer-answered (err e) a q = absurd (ground arith)

-- The detail of a new payment.
abbrev new_detail : PaymentAccepted → PaymentCreate → String → PaymentDetail
new_detail a d key = record {
  payment_id = a.payment_id;
  amount = d.amount;
  currency = d.currency;
  description = d.description;
  metadata = d.metadata;
  status = PublicPaymentStatus.pending;
  idempotency_key = key;
  webhook_url = d.webhook_url;
  created_at = a.created_at;
  processed_at = none;
}

module _ (h : Hashing) (api_key : String) (request : Request) (key : String) (d : PaymentCreate)
    (has_key : valid_key request.idempotency_key ≡ some key)
    (has_body : valid_body request.body ≡ some d) where
  -- A request that passes is what the service makes of its stripped key.
  passing :
      (tx : Tx) (event_id : ℕ) (others : Database → Database) (db : Database)
      → verify_api_key api_key request.x_api_key ≡ answered tt
      → is_empty (strip key) ≡ false
      → let x = Create.create_payment h tx event_id others d (strip key) db in
        create_payment h tx event_id others api_key request db ≡ (created_answer x.0, x.1)
  unfolding create_payment create_valid create_stripped
  passing tx event_id others db v filled =
      rw (v, has_key, has_body, filled, create_payment, create_valid)

  accepted-passing :
      (tx : Tx) (event_id : ℕ) (others : Database → Database) (db : Database) (a : PaymentAccepted)
      → (create_payment h tx event_id others api_key request db).0 ≡ answered a
      → (verify_api_key api_key request.x_api_key ≡ answered tt) × (is_empty (strip key) ≡ false)
  unfolding create_payment create_valid create_stripped
  accepted-passing tx event_id others db a q =
      elim (Answer-cases (verify_api_key api_key request.x_api_key)) [
        | inl (done, v) ↦ elim (Bool-cases (is_empty (strip key))) [
          | inl e ↦ absurd (ground arith)
          | inr e ↦ (v, e)
        ]
        | inr (inl (code, v)) ↦ absurd (ground arith)
        | inr (inr (e, v)) ↦ absurd (ground arith)
      ]

  -- What a client gets about a row that is stored: its detail, and for the same request its answer.
  stored-read :
      (parse : UrlParser) (p : Payment) (db : Database)
      → verify_api_key api_key request.x_api_key ≡ answered tt
      → parse p.webhook_url ≡ ok d.webhook_url
      → IsStored p db
      → get_payment parse api_key request.x_api_key p.id db
        ≡ answered (record {
          payment_id = p.id;
          amount = p.amount;
          currency = p.currency;
          description = p.description;
          metadata = p.payment_metadata;
          status = to_public_payment_status p.status;
          idempotency_key = p.idempotency_key;
          webhook_url = d.webhook_url;
          created_at = p.created_at;
          processed_at = p.processed_at;
        })
  unfolding get_payment Create.get_payment get_by_id
  stored-read parse p db v parses stored = rw (v, get_payment, stored.0, parses)

  stored-again :
      (tx : Tx) (event_id : ℕ) (others : Database → Database) (p : Payment) (db : Database)
      → verify_api_key api_key request.x_api_key ≡ answered tt
      → is_empty (strip key) ≡ false
      → build_request_fingerprint h d ≡ ok p.request_fingerprint
      → p.idempotency_key ≡ strip key
      → IsStored p db
      → create_payment h tx event_id others api_key request db ≡ (answered (accepted p), db)
  stored-again tx event_id others p db v filled hashed own stored =
      let again =
        create_payment-again h tx event_id others d (strip key) p.request_fingerprint p db hashed
          (ap (λ k. get_by_idempotency_key k db.payments) (sym own) ∙ stored.1) in
      passing tx event_id others db v filled ∙ rw (again, eq_refl)

  -- Under a key that no payment had, a request whose header and body are valid and that is answered
  -- with a payment has these effects: a client with the same API key then reads this payment under
  -- the id of the answer, pending, with all that the request holds; and the same request again, at
  -- any time and with any fresh ids, is answered the same and changes nothing. What is asked of the
  -- parser of URLs is that it gives back the URL of the body for its text.
  pub create-get :
      (tx : Tx) (event_id : ℕ) (others : Database → Database) (db : Database) (parse : UrlParser)
      (a : PaymentAccepted)
      → get_by_idempotency_key (strip key) db.payments ≡ none
      → get_by_idempotency_key (strip key) (others db).payments ≡ none
      → parse d.webhook_url.text ≡ ok d.webhook_url
      → (create_payment h tx event_id others api_key request db).0 ≡ answered a
      → let db' = (create_payment h tx event_id others api_key request db).1 in
        (get_payment parse api_key request.x_api_key a.payment_id db'
          ≡ answered (new_detail a d (strip key)))
        × ((tx' : Tx) (event_id' : ℕ) (others' : Database → Database)
            → create_payment h tx' event_id' others' api_key request db' ≡ (answered a, db'))
  unfolding to_public_payment_status
  create-get tx event_id others db parse a free free' parses q =
      let (v, filled) = accepted-passing tx event_id others db a q in
      let same = passing tx event_id others db v filled in
      let (c, done, view) = created_answer-answered _ a (sym (ap (λ x. x.0) same) ∙ q) in
      let (fingerprint, hashed, made, stored) =
        create_payment-stores h tx event_id others d (strip key) db c free free' done in
      let p = new_payment tx d (strip key) fingerprint in
      rw (same, view, made)
        (
          stored-read parse p _ v parses stored,
          λ tx' event_id' others'.
              stored-again tx' event_id' others' p _ v filled hashed refl stored,
        )
