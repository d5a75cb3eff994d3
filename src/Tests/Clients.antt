-- ===== src/Tests/Clients.antt =====
-- Runs of the provider client.
use async_payment_processing.Prelude.{
  ℕ, ◌+◌, ◌*◌, ◌≤◌, ◌≡◌, refl, ◌≢◌, inl, inr, none, [], ◌∷◌, arith, if◌then◌else◌, ◌==◌, Bool-cases,
  ok, err, All, provider_unavailable, provider_ambiguous_outcome, runtime_error,
}
use async_payment_processing.Schemas.{Currency, ProviderPaymentRequest}
use async_payment_processing.Clients.Provider.{
  Config, check_config, Outcome, connect_error, read_timeout,
}
use async_payment_processing.Clients.Provider.RetryAfter.{Parsers}
use async_payment_processing.Clients.Provider.Loop.{
  Round, process_payment, retry_or_fail, posted, slept, rounds_from, one_round, after_post,
  wait_before_retry, sleep_then,
}
use async_payment_processing.Clients.Provider.Bounds.{
  posts, IsWithin, process_payment-IsWithin, process_payment-posts,
}
use async_payment_processing.Clients.Provider.Retries.{no_blind_repeat}

abbrev client : Config
client = record {
  request_timeout = 5;
  max_attempts = 3;
  retry_base_delay = 1;
  retry_max_delay = 4;
  retry_total_timeout = 20;
}

abbrev parsers : Parsers
parsers = record { float = λ s. none; date = λ s. none }

abbrev request : ProviderPaymentRequest
request = record { payment_id = 101; amount = 150050; currency = Currency.rub }

-- The first POST finds no connection, and the later ones get no answer in time.
abbrev met : ℕ → Outcome
met attempt = if attempt == 1 then connect_error else read_timeout

abbrev rounds : ℕ → Round
rounds attempt = record {
  post_clock = 10 * attempt;
  post = λ t. met attempt;
  wall_clock = 0;
  wait_clock = 10 * attempt + 1;
  uniform = λ interval. interval;
}

client-valid : check_config client ≡ ok client
unfolding check_config
client-valid = refl

-- One retry, and no second one after the POST without an answer.
unanswered_run : process_payment parsers client request rounds 10 ≡ record {
  actions = posted 101 10 5 ∷ slept 11 1 ∷ posted 101 20 5 ∷ [];
  result = err provider_ambiguous_outcome;
}
unfolding process_payment rounds_from one_round after_post retry_or_fail wait_before_retry
    sleep_then
unanswered_run = refl

no_blind_repeat_example :
    (posts (process_payment parsers client request rounds 10) ≤ 2)
    × (posts (process_payment parsers client request rounds 10) ≡ 2
        → (process_payment parsers client request rounds 10).result ≢ err provider_unavailable)
no_blind_repeat_example =
    no_blind_repeat parsers client request rounds 10 2 client-valid (omega arith) (λ t. refl)
      (λ j t. elim (Bool-cases (j == 1)) [ inl e ↦ rw e tt | inr e ↦ rw e tt ])

process_payment-IsWithin_example :
    All (IsWithin client 101 10) (process_payment parsers client request rounds 10).actions
process_payment-IsWithin_example =
    process_payment-IsWithin parsers client request rounds 10 client-valid

process_payment-posts_example :
    (posts (process_payment parsers client request rounds 10) ≤ 3)
    × ((process_payment parsers client request rounds 10).result ≢ err runtime_error)
process_payment-posts_example =
    process_payment-posts parsers client request rounds 10 client-valid
      (λ j t. elim (Bool-cases (j == 1)) [ inl e ↦ rw e tt | inr e ↦ rw e tt ])
