-- ===== src/Startup/Build.antt =====
-- Which settings the components accept: app/core/config.py and app/worker/main.py.
use async_payment_processing.Breaker.{Breaker}
use async_payment_processing.Prelude.{
  ℕ, ◌≤◌, ◌<◌, ◌≡◌, true, arith, ok, err, value_error, refl, inl, inr, Result-cases, ◌⊎◌,
}
use async_payment_processing.Breaker
use async_payment_processing.Clients.Provider
use async_payment_processing.Clients.Webhook
use async_payment_processing.Services.Reconciliation
use async_payment_processing.Startup.{
  Settings, valid_settings, get_settings, Components, build, provider_config, reconciliation_config,
}

le-or-lt : (a b : ℕ) → (a ≤ b) ⊎ (b < a)
le-or-lt a b = omega arith

get_settings-valid : (s r : Settings) → get_settings s ≡ ok r → valid_settings r ≡ true
unfolding get_settings
get_settings-valid s r h = ground (arith, h)

module _ (s : Settings) (valid : valid_settings s ≡ true) where
  provider-check_config :
      (s.payment_provider_retry_base_delay ≤ s.payment_provider_retry_max_delay)
      → Provider.check_config (provider_config s) ≡ ok (provider_config s)
  unfolding Provider.check_config
  provider-check_config le = ground arith

  provider-refuses :
      (s.payment_provider_retry_max_delay < s.payment_provider_retry_base_delay)
      → Provider.check_config (provider_config s) ≡ err value_error
  unfolding Provider.check_config
  provider-refuses lt = ground arith

  breaker-init :
      (b : Breaker) × (Breaker.init s.payment_provider_circuit_breaker_failure_threshold
          s.payment_provider_circuit_breaker_recovery_timeout
        ≡ ok b)
  unfolding Breaker.init
  breaker-init =
      elim (Result-cases (
        Breaker.init s.payment_provider_circuit_breaker_failure_threshold
          s.payment_provider_circuit_breaker_recovery_timeout)) [
            | inl (x, e) ↦ absurd (ground arith)
            | inr (b, e) ↦ (b, e)
          ]

  webhook-check_timeout :
      Webhook.check_timeout s.webhook_request_timeout ≡ ok s.webhook_request_timeout
  unfolding Webhook.check_timeout
  webhook-check_timeout = ground arith

  reconciliation-check_config :
      Reconciliation.check_config (reconciliation_config s) ≡ ok (reconciliation_config s)
  unfolding Reconciliation.check_config
  reconciliation-check_config = ground arith

  pub build-ok :
      (s.payment_provider_retry_base_delay ≤ s.payment_provider_retry_max_delay)
      → (c : Components) × (build s ≡ ok c)
  unfolding build
  build-ok le =
      let (b, made) = breaker-init in
      let c : Components = record {
        provider = provider_config s;
        breaker = b;
        webhook_timeout = s.webhook_request_timeout;
        reconciliation = reconciliation_config s;
      } in
      (
        c,
        rw (provider-check_config le, made, webhook-check_timeout, reconciliation-check_config)
            refl,
      )

  pub build-err :
      (s.payment_provider_retry_max_delay < s.payment_provider_retry_base_delay)
      → build s ≡ err value_error
  unfolding build
  build-err lt = rw (provider-refuses lt) refl

-- Of settings that pass their validation every component is made, except when the first delay between
-- two retries is longer than the longest one: no field is compared with another, so these settings
-- pass as well, and the client of the provider refuses them with a ValueError.
pub get_settings-build :
    (s r : Settings)
    → get_settings s ≡ ok r
    → ((r.payment_provider_retry_base_delay ≤ r.payment_provider_retry_max_delay)
        × (c : Components) × (build r ≡ ok c))
      ⊎ ((r.payment_provider_retry_max_delay < r.payment_provider_retry_base_delay)
          × (build r ≡ err value_error))
get_settings-build s r h =
    let valid = get_settings-valid s r h in
    elim (le-or-lt r.payment_provider_retry_base_delay r.payment_provider_retry_max_delay) [
      | inl le ↦ (let (c, made) = build-ok r valid le in inl (le, c, made))
      | inr lt ↦ inr (lt, build-err r valid lt)
    ]
