-- ===== src/Tests/Startup.antt =====
-- Starts and stops of the worker.
use async_payment_processing.Prelude.{
  ◌≡◌, ◌≤◌, ◌<◌, refl, false, true, some, ok, err, arith, value_error, Error, unexpected, ◌⊎◌,
}
use async_payment_processing.Startup.{Settings, get_settings, build, Components}
use async_payment_processing.Startup.Build.{get_settings-build}
use async_payment_processing.Startup.Lifecycle.{World, attempt, run_worker}
use async_payment_processing.Startup.Monitor.{nothing_held, clients_held, held_after}
use async_payment_processing.Startup.Orderly.{IsQuiet, run_worker-orderly}

-- The defaults, in tenths of a second.
abbrev defaults : Settings
defaults = record {
  outbox_relay_batch_size = 100;
  outbox_relay_poll_interval = 10;
  rabbit_publish_timeout = 50;
  payment_provider_request_timeout = 60;
  payment_provider_max_attempts = 3;
  payment_provider_retry_base_delay = 2;
  payment_provider_retry_max_delay = 10;
  payment_provider_retry_total_timeout = 100;
  payment_provider_circuit_breaker_failure_threshold = 5;
  payment_provider_circuit_breaker_recovery_timeout = 150;
  webhook_request_timeout = 50;
  payment_reconciliation_batch_size = 20;
  payment_reconciliation_stale_after = 300;
  payment_reconciliation_poll_interval = 50;
  payment_reconciliation_lease = 600;
  payment_reconciliation_max_attempts = 5;
}

abbrev impatient : Settings
impatient = record defaults { payment_provider_retry_base_delay = 20 }

-- The relay ends on its own with an exception, and the other task is awaited.
abbrev world : World
world = record {
  check = ok tt;
  connect = ok tt;
  declare = ok tt;
  start = ok tt;
  wait = ok tt;
  relay_done = true;
  relay_end = err unexpected;
  reconciliation_done = false;
  reconciliation_end = ok tt;
  reconciliation_done_later = false;
  stop = ok tt;
  close_provider = ok tt;
  close_webhook = ok tt;
  close_database = ok tt;
}

defaults-valid : get_settings defaults ≡ ok defaults
unfolding get_settings
defaults-valid = refl

impatient-valid : get_settings impatient ≡ ok impatient
unfolding get_settings
impatient-valid = refl

get_settings-build_example :
    ((20 ≤ 10) × (c : Components) × (build impatient ≡ ok c))
    ⊎ ((10 < 20) × (build impatient ≡ err value_error))
get_settings-build_example = get_settings-build impatient impatient impatient-valid

world-IsQuiet : IsQuiet world
world-IsQuiet = record {
  relay = λ e. absurd (ground arith);
  reconciliation = λ e. refl;
  stop = refl;
  close_provider = refl;
  close_webhook = refl;
  close_database = refl;
}

run_worker-orderly_example :
    let final = held_after (run_worker defaults world).actions (some nothing_held) in
    ((c : Components) × (build defaults ≡ ok c)
      × (final ≡ some nothing_held)
      × ((run_worker defaults world).result ≡ (attempt world).trace.result))
    ⊎ ((e : Error) × (build defaults ≡ err e)
        × (final ≡ some clients_held)
        × ((run_worker defaults world).result ≡ err e))
run_worker-orderly_example = run_worker-orderly defaults defaults world defaults-valid world-IsQuiet
