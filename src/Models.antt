-- ===== src/Models.antt =====
-- app/models: the rows of the tables `payments` and `outbox_events`, and the database.
pub mod Rows
pub mod Schema
use async_payment_processing.Prelude.{ℕ, String, Bool, Option, List}
use async_payment_processing.Schemas.{PaymentStatus, Currency, Members, EventType, Body}

-- app/models/payment.py, class `Payment`
pub record Payment : Type 0 where
  pub id : ℕ
  pub amount : ℕ
  pub currency : Currency
  pub description : Option String
  pub payment_metadata : Members
  pub status : PaymentStatus
  pub idempotency_key : String
  pub request_fingerprint : String
  pub webhook_url : String
  pub webhook_event_id : Option ℕ
  pub webhook_sent_at : Option ℕ
  pub provider_payment_id : Option ℕ
  pub created_at : ℕ
  pub updated_at : ℕ
  pub processed_at : Option ℕ
  pub reconciliation_attempts : ℕ
  pub requires_manual_review : Bool
  pub reconciliation_lease_token : Option ℕ
  pub reconciliation_lease_until : Option ℕ

-- app/models/outbox_event.py, class `OutboxEvent`
pub record OutboxEvent : Type 0 where
  pub id : ℕ
  pub event_type : EventType
  pub payment_id : ℕ
  pub payload : Body
  pub created_at : ℕ
  pub published_at : Option ℕ

-- The committed rows, in the order of insertion.
pub record Database : Type 0 where
  pub payments : List Payment
  pub outbox : List OutboxEvent
