-- ===== src/Tests/Samples.antt =====
-- One payment on its way through the service: app/services and app/worker.
use async_payment_processing.Prelude.{ℕ, ◌+◌, ◌≡◌, refl, true, none, some, [], ◌∷◌, arith, ok}
use async_payment_processing.Schemas.{
  PaymentStatus, Currency, Members, PaymentCreate, ProviderPaymentStatus, ProviderPaymentResponse,
  EventEnvelope, EventType, validate_payment_create,
}
use async_payment_processing.Models.{Payment, OutboxEvent, Database}
use async_payment_processing.Models.Rows.{find, replace}
use async_payment_processing.Repositories.Payments.{add, update}
use async_payment_processing.Repositories.Outbox.{add_event}
use async_payment_processing.Repositories.Session.{Tx, commit, save}
use async_payment_processing.Services.Create.{
  Hashing, new_payment, process_requested_event, insert_both,
}
use async_payment_processing.Services.Reconciliation.{Config}
use async_payment_processing.Worker.Payment.{mark_unknown, apply_provider_result}
use async_payment_processing.Flow.{IsSound}
use async_payment_processing.Flow.Reach.{
  Reach, here, next, insert, apply, set_unknown, empty, Reach-IsSound,
}

abbrev pub config : Config
config = record {
  batch_size = 20;
  stale_after = 30;
  poll_interval = 5;
  lease_time = 60;
  max_attempts = 5;
}

abbrev pub order : PaymentCreate
order = record {
  amount = 150050;
  currency = Currency.rub;
  description = none;
  metadata = Members.end;
  webhook_url = record { text = "https://example.com/webhook"; username = none; password = none };
}

-- A transaction at the time `t`, whose fresh id is 100 above it.
abbrev pub tx_at : ℕ → Tx
tx_at t = record { now = t; db_now = t; uuid = 100 + t; alive = true; refreshes = true }

abbrev pub hashing : Hashing
hashing = record { dumps = λ p. some "order"; sha256 = λ s. "abc" }

abbrev pub answer : ProviderPaymentResponse
answer = record { provider_payment_id = 7; status = ProviderPaymentStatus.approved }

abbrev pub new_row : Payment
new_row = new_payment (tx_at 1) order "order-123" "abc"

abbrev pub request_row : OutboxEvent
request_row = process_requested_event 50 1 new_row

-- After the creation, after an unknown outcome, and after an answer.
abbrev pub db_pending : Database
db_pending = record { payments = new_row ∷ []; outbox = request_row ∷ [] }

abbrev pub db_unknown : Database
db_unknown = record db_pending {
  payments = record new_row { status = PaymentStatus.unknown; updated_at = 2 } ∷ [];
}

abbrev pub db_final : Database
db_final = (apply_provider_result (tx_at 2) 101 answer db_pending).1

pub order-valid : validate_payment_create order ≡ ok order
unfolding validate_payment_create
order-valid = refl

pub pending-Reach : Reach config empty db_pending
unfolding commit insert_both add add_event find
pending-Reach = next {t = empty} here (insert (tx_at 1) 50 order "order-123" "abc" order-valid)

pub unknown-Reach : Reach config empty db_unknown
unfolding commit mark_unknown save update find replace
unknown-Reach = next pending-Reach (set_unknown (tx_at 2) 101)

pub final-Reach : Reach config empty db_final
final-Reach = next pending-Reach (apply (tx_at 2) 101 answer)

pub pending-IsSound : IsSound 5 db_pending
pending-IsSound = Reach-IsSound {c = config} (omega arith) pending-Reach

pub unknown-IsSound : IsSound 5 db_unknown
unknown-IsSound = Reach-IsSound {c = config} (omega arith) unknown-Reach

-- The two events of the payment.
abbrev pub process_event : EventEnvelope
process_event = record {
  event_id = 50;
  event_type = EventType.payment_process_requested;
  schema_version = 1;
  payment_id = 101;
  attempt = 1;
  occurred_at = 1;
}

abbrev pub webhook_envelope : EventEnvelope
webhook_envelope = record {
  event_id = 102;
  event_type = EventType.webhook_delivery_requested;
  schema_version = 1;
  payment_id = 101;
  attempt = 1;
  occurred_at = 2;
}
