-- ===== src/Startup.antt =====
-- app/core/config.py and the part of app/worker/main.py that makes the worker's components.
pub mod Build
pub mod Lifecycle
pub mod Monitor
pub mod Orderly
use async_payment_processing.Prelude.{
  ℕ, Bool, ◌&&◌, if◌then◌else◌, ltb, leb, ok, err, Result, ◌>>=◌, validation_error, ◌>>◌,
}
use async_payment_processing.Breaker
use async_payment_processing.Breaker.{Breaker}
use async_payment_processing.Clients.Provider
use async_payment_processing.Clients.Webhook
use async_payment_processing.Services.Reconciliation

-- The fields of `Settings` that the components are made from. Durations are whole ticks: no field
-- takes a negative number, and the two that may be 0 have no further limit.
pub record Settings : Type 0 where
  pub outbox_relay_batch_size : ℕ
  pub outbox_relay_poll_interval : ℕ
  pub rabbit_publish_timeout : ℕ
  pub payment_provider_request_timeout : ℕ
  pub payment_provider_max_attempts : ℕ
  pub payment_provider_retry_base_delay : ℕ
  pub payment_provider_retry_max_delay : ℕ
  pub payment_provider_retry_total_timeout : ℕ
  pub payment_provider_circuit_breaker_failure_threshold : ℕ
  pub payment_provider_circuit_breaker_recovery_timeout : ℕ
  pub webhook_request_timeout : ℕ
  pub payment_reconciliation_batch_size : ℕ
  pub payment_reconciliation_stale_after : ℕ
  pub payment_reconciliation_poll_interval : ℕ
  pub payment_reconciliation_lease : ℕ
  pub payment_reconciliation_max_attempts : ℕ

-- `Field(ge=1, ...)` and `Field(gt=0)` of the fields.
abbrev pub valid_settings : Settings → Bool
valid_settings s =
    leb 1 s.outbox_relay_batch_size
    && leb s.outbox_relay_batch_size 1000
    && ltb 0 s.outbox_relay_poll_interval
    && ltb 0 s.rabbit_publish_timeout
    && ltb 0 s.payment_provider_request_timeout
    && leb 1 s.payment_provider_max_attempts
    && leb s.payment_provider_max_attempts 10
    && ltb 0 s.payment_provider_retry_total_timeout
    && leb 1 s.payment_provider_circuit_breaker_failure_threshold
    && ltb 0 s.webhook_request_timeout
    && leb 1 s.payment_reconciliation_batch_size
    && ltb 0 s.payment_reconciliation_poll_interval
    && ltb 0 s.payment_reconciliation_lease
    && leb 1 s.payment_reconciliation_max_attempts

-- `Settings()`
unfoldable pub get_settings : Settings → Result Settings
get_settings s = if valid_settings s then ok s else err validation_error

-- The arguments of the constructors.
abbrev pub provider_config : Settings → Provider.Config
provider_config s = record {
  request_timeout = s.payment_provider_request_timeout;
  max_attempts = s.payment_provider_max_attempts;
  retry_base_delay = s.payment_provider_retry_base_delay;
  retry_max_delay = s.payment_provider_retry_max_delay;
  retry_total_timeout = s.payment_provider_retry_total_timeout;
}

abbrev pub reconciliation_config : Settings → Reconciliation.Config
reconciliation_config s = record {
  batch_size = s.payment_reconciliation_batch_size;
  stale_after = s.payment_reconciliation_stale_after;
  poll_interval = s.payment_reconciliation_poll_interval;
  lease_time = s.payment_reconciliation_lease;
  max_attempts = s.payment_reconciliation_max_attempts;
}

-- What the worker is made of.
pub record Components : Type 0 where
  pub provider : Provider.Config
  pub breaker : Breaker
  pub webhook_timeout : ℕ
  pub reconciliation : Reconciliation.Config

-- The constructors of `run_worker` that check their arguments, in the order of the calls.
unfoldable pub build : Settings → Result Components
build s = do
  provider ← Provider.check_config (provider_config s)
  breaker ←
      Breaker.init s.payment_provider_circuit_breaker_failure_threshold
        s.payment_provider_circuit_breaker_recovery_timeout
  webhook_timeout ← Webhook.check_timeout s.webhook_request_timeout
  reconciliation ← Reconciliation.check_config (reconciliation_config s)
  ok (record {
    provider = provider;
    breaker = breaker;
    webhook_timeout = webhook_timeout;
    reconciliation = reconciliation;
  })
