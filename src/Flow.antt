-- ===== src/Flow.antt =====
-- The two tables together, under every transaction of app/services and app/worker.
use async_payment_processing.Prelude.{
  ℕ, ◌≡◌, Bool, true, false, ◌&&◌, not, Option, none, some, List, if◌then◌else◌, ◌==◌, leb, is_some,
  equals_some, tally, ◌≤◌,
}
pub mod Rows
pub mod Create
pub mod Process
pub mod Deliver
pub mod Reconcile
pub mod Relay
pub mod Batch
pub mod Later
pub mod Progress
pub mod Origin
pub mod Reach
pub mod Agreement
pub mod WithMock
pub mod Outbox
pub mod Envelopes
pub mod Honest
pub mod Handled
pub mod Ready
pub mod Sent
pub mod Complete
pub mod Resolved
use async_payment_processing.Schemas.{
  PaymentStatus, EventType, is_pending, is_unknown, is_terminal, valid_amount,
}
use async_payment_processing.Models.{Payment, OutboxEvent, Database}
use async_payment_processing.Models.Rows.{find, HasUniqueIds}

abbrev pub is_webhook_type : EventType → Bool
is_webhook_type EventType.webhook_delivery_requested = true
is_webhook_type EventType.payment_process_requested = false

-- The event asks to process payment `k`.
abbrev pub is_request : ℕ → OutboxEvent → Bool
is_request k e = (e.payment_id == k) && not (is_webhook_type e.event_type)

-- The event asks to deliver the webhook of payment `k`.
abbrev pub is_webhook : ℕ → OutboxEvent → Bool
is_webhook k e = (e.payment_id == k) && is_webhook_type e.event_type

-- It does so under this event id.
abbrev pub is_webhook_as : ℕ → Option ℕ → OutboxEvent → Bool
is_webhook_as k event_id e = is_webhook k e && equals_some event_id e.id

abbrev pub one_if : Bool → ℕ
one_if b = if b then 1 else 0

-- What holds of a row and the outbox; `max_attempts` is that of the reconciliation.
pub record IsConsistent (max_attempts : ℕ) (outbox : List OutboxEvent) (p : Payment) : Type 0 where
  pub payable : valid_amount p.amount ≡ true
  pub requested : tally (is_request p.id) outbox ≡ 1
  pub announced : tally (is_webhook p.id) outbox ≡ one_if (is_terminal p.status)
  pub announced_as :
      tally (is_webhook_as p.id p.webhook_event_id) outbox ≡ one_if (is_terminal p.status)
  pub named : is_some p.webhook_event_id ≡ is_terminal p.status
  pub answered : is_some p.provider_payment_id ≡ is_terminal p.status
  pub dated : is_some p.processed_at ≡ is_terminal p.status
  pub sent : is_some p.webhook_sent_at ≡ true → is_terminal p.status ≡ true
  pub leased : is_some p.reconciliation_lease_token ≡ is_some p.reconciliation_lease_until
  pub lease_unknown : is_some p.reconciliation_lease_token ≡ true → is_unknown p.status ≡ true
  pub reviewed : p.requires_manual_review ≡ leb max_attempts p.reconciliation_attempts
  pub review_unknown : p.requires_manual_review ≡ true → is_unknown p.status ≡ true
  pub spent : p.reconciliation_attempts ≤ max_attempts
  pub lease_open : is_some p.reconciliation_lease_token ≡ true → p.requires_manual_review ≡ false
  pub fresh : is_pending p.status ≡ true → p.reconciliation_attempts ≡ 0

-- What holds of the database between two transactions.
pub record IsSound (max_attempts : ℕ) (db : Database) : Type 0 where
  pub unique : HasUniqueIds db.payments
  pub rows :
      (k : ℕ) (p : Payment) → find k db.payments ≡ some p → IsConsistent max_attempts db.outbox p
  pub no_orphans :
      (k : ℕ)
      → find k db.payments ≡ none
      → (tally (is_request k) db.outbox ≡ 0) × (tally (is_webhook k) db.outbox ≡ 0)
