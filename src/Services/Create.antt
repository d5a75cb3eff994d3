-- ===== src/Services/Create.antt =====
-- app/services/payment.py, class `PaymentService`, app/services/idempotency.py and
-- app/services/payment_query.py.
pub mod Idempotency
pub mod Stored
use async_payment_processing.Prelude.{
  ℕ, String, Bool, true, false, Option, none, some, if◌then◌else◌, ok, err, Result, ◌>>=◌,
  database_error, idempotency_conflict, integrity_error, value_error,
}
use text.Mathlib.Text.{◌==◌ as text_eq}
use async_payment_processing.Schemas.{
  PaymentStatus, Currency, Members, EventType, PaymentCreate, dump,
}
use async_payment_processing.Models.{Payment, OutboxEvent, Database}
use async_payment_processing.Repositories.Payments.{get_by_idempotency_key, get_by_id, add}
use async_payment_processing.Repositories.Outbox.{add_event}
use async_payment_processing.Repositories.Session.{Tx, commit}

-- The dictionary of `build_request_fingerprint`; the amount is quantized to cents, as all amounts here.
pub record CanonicalPayload : Type 0 where
  pub amount : ℕ
  pub currency : Currency
  pub description : Option String
  pub metadata : Members
  pub webhook_url : String

abbrev pub canonical_payload : PaymentCreate → CanonicalPayload
canonical_payload d = record {
  amount = d.amount;
  currency = d.currency;
  description = d.description;
  metadata = d.metadata;
  webhook_url = d.webhook_url.text;
}

-- `json.dumps(..., sort_keys=True, allow_nan=False)`, which raises ValueError on what is no JSON, and
-- the hexadecimal SHA-256 of a text: functions of the standard library.
pub record Hashing : Type 0 where
  pub dumps : CanonicalPayload → Option String
  pub sha256 : String → String

abbrev digest : Hashing → Option String → Result String
digest h none = err value_error
digest h (some text) = ok (h.sha256 text)

unfoldable pub build_request_fingerprint : Hashing → PaymentCreate → Result String
build_request_fingerprint h d = digest h (h.dumps (canonical_payload d))

pub record PaymentCreationResult : Type 0 where
  pub payment : Payment
  pub created : Bool

-- `_resolve_existing_payment`
unfoldable pub resolve_existing_payment : Payment → String → Result PaymentCreationResult
resolve_existing_payment p request_fingerprint =
    if text_eq p.request_fingerprint request_fingerprint
    then ok (record { payment = p; created = false })
    else err idempotency_conflict

-- The new row, with the defaults of its columns; `tx.uuid` is the default of its key.
abbrev pub new_payment : Tx → PaymentCreate → String → String → Payment
new_payment tx d idempotency_key request_fingerprint = record {
  id = tx.uuid;
  amount = d.amount;
  currency = d.currency;
  description = d.description;
  payment_metadata = d.metadata;
  status = PaymentStatus.pending;
  idempotency_key = idempotency_key;
  request_fingerprint = request_fingerprint;
  webhook_url = d.webhook_url.text;
  webhook_event_id = none;
  webhook_sent_at = none;
  provider_payment_id = none;
  created_at = tx.db_now;
  updated_at = tx.db_now;
  processed_at = none;
  reconciliation_attempts = 0;
  requires_manual_review = false;
  reconciliation_lease_token = none;
  reconciliation_lease_until = none;
}

-- `_build_process_requested_event`
abbrev pub process_requested_event : ℕ → ℕ → Payment → OutboxEvent
process_requested_event event_id occurred_at p = record {
  id = event_id;
  event_type = EventType.payment_process_requested;
  payment_id = p.id;
  payload = dump (record {
    event_id = event_id;
    event_type = EventType.payment_process_requested;
    schema_version = 1;
    payment_id = p.id;
    attempt = 1;
    occurred_at = occurred_at;
  });
  created_at = occurred_at;
  published_at = none;
}

-- The two inserts of the `try` block.
unfoldable pub insert_both : Payment → OutboxEvent → Database → Result Database
insert_both p e db = add p db.payments >>= λ ps.
    add_event e db.outbox >>= λ es. ok (record { payments = ps; outbox = es })

-- The second read after an IntegrityError.
abbrev reread : Option Payment → String → Result PaymentCreationResult
reread none request_fingerprint = err integrity_error
reread (some p) request_fingerprint = resolve_existing_payment p request_fingerprint

-- The `except` clauses, where an IntegrityError is answered by the row that is there now, if there is
-- one; and `refresh` after the commit, whose exception is outside the `try` block.
unfoldable pub after_insert :
    Tx
    → String
    → String
    → Payment
    → Result (Unit {0}) × Database
    → Result PaymentCreationResult × Database
after_insert tx key request_fingerprint p (ok done, db) =
    ((if tx.refreshes then ok (record { payment = p; created = true }) else err database_error), db)
after_insert tx key request_fingerprint p (err integrity_error, db) =
    (reread (get_by_idempotency_key key db.payments) request_fingerprint, db)
after_insert tx key request_fingerprint p (err e, db) = (err e, db)

create_new :
    Tx
    → ℕ
    → (Database → Database)
    → PaymentCreate
    → String
    → String
    → Database
    → Result PaymentCreationResult × Database
unfolding after_insert insert_both commit
create_new tx event_id others d key request_fingerprint db =
    let p = new_payment tx d key request_fingerprint in
    let db' = others db in
    after_insert tx key request_fingerprint p
      (commit tx tt (insert_both p (process_requested_event event_id tx.now p) db') db')

resolve_or_create :
    Tx
    → ℕ
    → (Database → Database)
    → PaymentCreate
    → String
    → String
    → Option Payment
    → Database
    → Result PaymentCreationResult × Database
unfolding create_new
resolve_or_create tx event_id others d key request_fingerprint (some p) db =
    (resolve_existing_payment p request_fingerprint, db)
resolve_or_create tx event_id others d key request_fingerprint none db =
    create_new tx event_id others d key request_fingerprint db

fingerprinted :
    Tx
    → ℕ
    → (Database → Database)
    → PaymentCreate
    → String
    → Result String
    → Database
    → Result PaymentCreationResult × Database
unfolding resolve_or_create
fingerprinted tx event_id others d key (err e) db = (err e, db)
fingerprinted tx event_id others d key (ok fingerprint) db =
    resolve_or_create tx event_id others d key fingerprint (get_by_idempotency_key key db.payments)
      db

-- `create_payment`: `others` is what other sessions commit between its first read and its inserts.
unfoldable pub create_payment :
    Hashing
    → Tx
    → ℕ
    → (Database → Database)
    → PaymentCreate
    → String
    → Database
    → Result PaymentCreationResult × Database
unfolding fingerprinted
create_payment h tx event_id others d key db =
    fingerprinted tx event_id others d key (build_request_fingerprint h d) db

-- `PaymentQueryService.get_payment`
unfoldable pub get_payment : ℕ → Database → Option Payment
unfolding get_by_id
get_payment payment_id db = get_by_id payment_id db.payments
