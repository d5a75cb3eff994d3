-- ===== src/Repositories/Session.antt =====
-- A transaction of an AsyncSession, as app/services and app/worker use it: its changes become visible
-- together by `commit`, or `rollback` drops them.
use async_payment_processing.Prelude.{
  ℕ, Bool, if◌then◌else◌, ok, err, Result, database_error, none, ◌>>=◌, ◌≡◌, refl, true, arith,
}
use async_payment_processing.Schemas.{PaymentStatus, ProviderPaymentStatus, EventType, dump}
use async_payment_processing.Models.{Payment, OutboxEvent, Database}
use async_payment_processing.Repositories.Payments.{update}
use async_payment_processing.Repositories.Outbox.{add_event}

-- What one transaction reads from outside: `datetime.now(UTC)`, the database's `now()`, a fresh
-- `uuid4()`, whether the server carries out the statements and the commit, and whether it answers the
-- `refresh` of a row after the commit.
pub record Tx : Type 0 where
  pub now : ℕ
  pub db_now : ℕ
  pub uuid : ℕ
  pub alive : Bool
  pub refreshes : Bool

module _ {ℓ} {A : Type ℓ} where
  -- `await session.commit()` behind changes that may have failed, and the handler
  -- `except Exception: await session.rollback(); raise`.
  unfoldable pub commit : Tx → A → Result Database → Database → Result A × Database
  commit tx a (err e) db = (err e, db)
  commit tx a (ok changed) db = if tx.alive then (ok a, changed) else (err database_error, db)

  -- A SELECT outside a transaction that writes, which the server may fail to answer.
  unfoldable pub loads : Bool → Result A → Result A
  loads reads found = if reads then found else err database_error

  pub loads-ok : (reads : Bool) (found : Result A) {a : A} → loads reads found ≡ ok a → found ≡ ok a
  unfolding loads
  loads-ok reads found h = ground arith

  pub loads-read : (reads : Bool) (found : Result A) → reads ≡ true → loads reads found ≡ found
  unfolding loads
  loads-read reads found h = rw h refl

-- The UPDATE of one row.
unfoldable pub save : Tx → Payment → Database → Result Database
save tx p db = update tx.db_now p db.payments >>= λ ps. ok (record db { payments = ps })

-- The status that the provider's answer stands for.
abbrev pub final_status : ProviderPaymentStatus → PaymentStatus
final_status ProviderPaymentStatus.approved = PaymentStatus.succeeded
final_status ProviderPaymentStatus.declined = PaymentStatus.failed

-- The outbox row that asks for the first delivery of the webhook.
abbrev pub webhook_event : ℕ → ℕ → ℕ → ℕ → OutboxEvent
webhook_event event_id payment_id occurred_at created_at = record {
  id = event_id;
  event_type = EventType.webhook_delivery_requested;
  payment_id = payment_id;
  payload = dump (record {
    event_id = event_id;
    event_type = EventType.webhook_delivery_requested;
    schema_version = 1;
    payment_id = payment_id;
    attempt = 1;
    occurred_at = occurred_at;
  });
  created_at = created_at;
  published_at = none;
}

-- The row and the event, in one transaction.
unfoldable pub save_with_event : Tx → Payment → OutboxEvent → Database → Result Database
save_with_event tx p e db = update tx.db_now p db.payments >>= λ ps.
    add_event e db.outbox >>= λ es. ok (record { payments = ps; outbox = es })
