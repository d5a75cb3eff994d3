-- ===== src/Schemas/Webhook.antt =====
-- app/schemas/webhook.py: the payload of a webhook and its validator.
use async_payment_processing.Prelude.{
  ℕ, Bool, true, false, Option, none, some, if◌then◌else◌, ok, err, Result, validation_error,
}
use async_payment_processing.Schemas.{PaymentStatus, Currency, Members, valid_amount}

pub data WebhookEventType : Type 0 where
  payment_succeeded payment_failed : WebhookEventType

pub record WebhookPayload : Type 0 where
  pub event_id : ℕ
  pub event_type : WebhookEventType
  pub payment_id : ℕ
  pub status : PaymentStatus
  pub amount : ℕ
  pub currency : Currency
  pub processed_at : ℕ
  pub metadata : Members

-- The dictionary of `validate_terminal_status`
abbrev pub expected_event_type : PaymentStatus → Option WebhookEventType
expected_event_type PaymentStatus.succeeded = some payment_succeeded
expected_event_type PaymentStatus.failed = some payment_failed
expected_event_type _ = none

abbrev pub same_event_type : WebhookEventType → WebhookEventType → Bool
same_event_type payment_succeeded payment_succeeded = true
same_event_type payment_failed payment_failed = true
same_event_type _ _ = false

abbrev check_event_type : Option WebhookEventType → WebhookPayload → Result WebhookPayload
check_event_type none p = err validation_error
check_event_type (some t) p = if same_event_type p.event_type t then ok p else err validation_error

-- `WebhookPayload(...)`: the constraint on the amount, then `validate_terminal_status`
unfoldable pub validate_payload : WebhookPayload → Result WebhookPayload
validate_payload p =
    if valid_amount p.amount
    then check_event_type (expected_event_type p.status) p
    else err validation_error
