-- ===== src/Schemas.antt =====
-- app/schemas: the data that crosses the borders of the service, and the statuses of a payment
-- (app/models/payment.py). UUIDs are numbers that are only compared; instants are whole ticks.
-- An amount is a whole number of cents: validation accepts two decimal places at most.
pub mod Webhook
use async_payment_processing.Prelude.{
  ℕ, ◌^◌, String, Bool, true, false, ◌&&◌, ◌||◌, Option, if◌then◌else◌, ◌==◌, ltb, leb, is_some, ok,
  err, Result, ◌>>=◌, validation_error, ◌≡◌, refl, ◌⊎◌, inl, inr,
}

-- `PaymentStatus` of app/models/payment.py
pub data PaymentStatus : Type 0 where
  pending succeeded failed unknown : PaymentStatus

pub data Currency : Type 0 where
  rub usd eur : Currency

pub data PublicPaymentStatus : Type 0 where
  pending succeeded failed : PublicPaymentStatus

unfoldable pub to_public_payment_status : PaymentStatus → PublicPaymentStatus
to_public_payment_status PaymentStatus.unknown = PublicPaymentStatus.pending
to_public_payment_status PaymentStatus.pending = PublicPaymentStatus.pending
to_public_payment_status PaymentStatus.succeeded = PublicPaymentStatus.succeeded
to_public_payment_status PaymentStatus.failed = PublicPaymentStatus.failed

abbrev pub is_pending : PaymentStatus → Bool
is_pending PaymentStatus.pending = true
is_pending _ = false

abbrev pub is_unknown : PaymentStatus → Bool
is_unknown PaymentStatus.unknown = true
is_unknown _ = false

-- `status in (SUCCEEDED, FAILED)`
abbrev pub is_terminal : PaymentStatus → Bool
is_terminal PaymentStatus.succeeded = true
is_terminal PaymentStatus.failed = true
is_terminal _ = false

-- The values of `dict[str, object]`: JSON as Python reads it, which knows NaN. Numbers are kept as
-- they are spelled.
mutual
  pub data Json : Type 0 where
    null nan : Json
    bool : Bool → Json
    number text : String → Json
    array : Items → Json
    object : Members → Json

  pub data Items : Type 0 where
    nil : Items
    cons : Json → Items → Items

  pub data Members : Type 0 where
    end : Members
    member : String → Json → Members → Members

-- `Field(gt=Decimal("0"), max_digits=18, decimal_places=2)`, in cents
abbrev pub max_cents : ℕ
max_cents = 10 ^ 18

abbrev pub valid_amount : ℕ → Bool
valid_amount cents = ltb 0 cents && ltb cents max_cents

-- `AnyHttpUrl`, with the credentials that `validate_webhook_url` reads
pub record HttpUrl : Type 0 where
  pub text : String
  pub username : Option String
  pub password : Option String

pub record PaymentCreate : Type 0 where
  pub amount : ℕ
  pub currency : Currency
  pub description : Option String
  pub metadata : Members
  pub webhook_url : HttpUrl

-- `validate_webhook_url`
unfoldable pub validate_webhook_url : HttpUrl → Result HttpUrl
validate_webhook_url url =
    if is_some url.username || is_some url.password then err validation_error else ok url

-- `PaymentCreate.model_validate`, on data of the right shape
unfoldable pub validate_payment_create : PaymentCreate → Result PaymentCreate
unfolding validate_webhook_url
validate_payment_create d =
    if valid_amount d.amount
    then (validate_webhook_url d.webhook_url >>= λ url. ok (record d { webhook_url = url }))
    else err validation_error

-- app/schemas/event.py
pub data EventType : Type 0 where
  payment_process_requested webhook_delivery_requested : EventType

pub EventType-cases :
    (t : EventType) → (t ≡ payment_process_requested) ⊎ (t ≡ webhook_delivery_requested)
EventType-cases payment_process_requested = inl refl
EventType-cases webhook_delivery_requested = inr refl

pub record EventEnvelope : Type 0 where
  pub event_id : ℕ
  pub event_type : EventType
  pub schema_version : ℕ
  pub payment_id : ℕ
  pub attempt : ℕ
  pub occurred_at : ℕ

-- What a JSON column or a message body holds: the dump of an envelope, or anything else.
pub data Body : Type 0 where
  dump : EventEnvelope → Body
  other : Json → Body

-- `EventEnvelope.model_validate`: `attempt` is at least 1 and `schema_version` is 1.
unfoldable pub validate_envelope : Body → Result EventEnvelope
validate_envelope (dump e) =
    if leb 1 e.attempt && (e.schema_version == 1) then ok e else err validation_error
validate_envelope (other j) = err validation_error

-- app/schemas/provider.py
pub data ProviderPaymentStatus : Type 0 where
  approved declined : ProviderPaymentStatus

pub record ProviderPaymentRequest : Type 0 where
  pub payment_id : ℕ
  pub amount : ℕ
  pub currency : Currency

pub record ProviderPaymentResponse : Type 0 where
  pub provider_payment_id : ℕ
  pub status : ProviderPaymentStatus

-- `ProviderPaymentRequest(...)`, which validates its amount
unfoldable pub provider_payment_request : ℕ → ℕ → Currency → Result ProviderPaymentRequest
provider_payment_request id cents c =
    if valid_amount cents
    then ok (record { payment_id = id; amount = cents; currency = c })
    else err validation_error
