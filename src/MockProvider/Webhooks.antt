-- ===== src/MockProvider/Webhooks.antt =====
-- mock-provider/app/main.py: the webhooks that it captures, and `CapturedWebhook` of
-- mock-provider/app/schemas.py.
use async_payment_processing.Prelude.{ℕ, String, List, [], ◌∷◌, ◌++◌, if◌then◌else◌}
use text.Mathlib.Text.{◌==◌ as text_eq}
use async_payment_processing.Schemas.{Currency, Members}
use async_payment_processing.Schemas.Webhook.{WebhookEventType}

-- The statuses that `CapturedWebhookPayload` accepts.
pub data CapturedStatus : Type 0 where
  succeeded failed : CapturedStatus

pub record CapturedWebhookPayload : Type 0 where
  pub event_id : ℕ
  pub event_type : WebhookEventType
  pub payment_id : ℕ
  pub status : CapturedStatus
  pub amount : ℕ
  pub currency : Currency
  pub processed_at : ℕ
  pub metadata : Members

pub record CapturedWebhook : Type 0 where
  pub payload : CapturedWebhookPayload
  pub webhook_id : ℕ
  pub attempt : ℕ

-- `_captured_webhooks`
abbrev pub Captured : Type 0
Captured = String → List CapturedWebhook

-- `capture_webhook`, `clear_captured_webhooks`
unfoldable pub capture : String → CapturedWebhook → Captured → Captured
capture capture_id delivery all id =
    if text_eq id capture_id then all id ++ delivery ∷ [] else all id

unfoldable pub clear : String → Captured → Captured
clear capture_id all id = if text_eq id capture_id then [] else all id
