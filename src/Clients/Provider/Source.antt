-- ===== src/Clients/Provider/Source.antt =====
-- Where a result of the provider client comes from.
use async_payment_processing.Prelude.{
  ℕ, ◌≡◌, ◌⊎◌, Option, some, arith, ok, zero, suc, ◌+◌, min, inl, inr, ◌||◌, none, ◌==◌, Bool-cases,
}
use async_payment_processing.Schemas.{ProviderPaymentRequest, ProviderPaymentResponse}
use async_payment_processing.Clients.Provider.{
  Config, Response, Outcome, response, connect_error, connect_timeout, pool_timeout, raised,
  Seconds, parse_success_response, lookup_result, is_success,
}
use async_payment_processing.Clients.Provider.RetryAfter.{Parsers, get_retry_after}
use async_payment_processing.Clients.Provider.Loop.{
  Round, Run, rounds_from, one_round, after_post, after_response, retry_or_fail, wait_before_retry,
  sleep_then, process_payment, remaining_time,
}

-- The outcome is a successful response with this body.
abbrev pub Brings : Outcome → ProviderPaymentResponse → Type 0
Brings (response x) r = x.body ≡ some r
Brings _ r = ⊥

retry_or_fail-ok :
    (c : Config) (v : Round) (started_at attempt : ℕ) (s : Option Seconds) (rest : Run)
    (r : ProviderPaymentResponse)
    → (retry_or_fail c v started_at attempt s rest).result ≡ ok r
    → rest.result ≡ ok r
unfolding retry_or_fail wait_before_retry sleep_then
retry_or_fail-ok c v started_at attempt s rest r h = ground arith

after_response-ok :
    (p : Parsers) (c : Config) (v : Round) (started_at attempt : ℕ) (x : Response) (rest : Run)
    (r : ProviderPaymentResponse)
    → (after_response p c v started_at attempt x rest).result ≡ ok r
    → (x.body ≡ some r) ⊎ (rest.result ≡ ok r)
unfolding after_response parse_success_response
after_response-ok p c v started_at attempt x rest r h =
    elim (Bool-cases (is_success x.status_code)) [
      | inl e ↦ inl (ground (arith))
      | inr e ↦ elim (Bool-cases ((x.status_code == 429) || (x.status_code == 503))) [
        | inl f ↦ inr (
            retry_or_fail-ok c v started_at attempt (get_retry_after p v.wall_clock x.retry_after)
              rest r (rw (e, f, after_response) at h))
        | inr f ↦ absurd (ground arith)
      ]
    ]

after_post-ok :
    (p : Parsers) (c : Config) (v : Round) (started_at attempt : ℕ) (x : Outcome) (rest : Run)
    (r : ProviderPaymentResponse)
    → (after_post p c v started_at attempt x rest).result ≡ ok r
    → Brings x r ⊎ (rest.result ≡ ok r)
unfolding after_post
after_post-ok p c v started_at attempt (response x) rest r h =
    after_response-ok p c v started_at attempt x rest r h
after_post-ok p c v started_at attempt connect_error rest r h =
    inr (retry_or_fail-ok c v started_at attempt none rest r h)
after_post-ok p c v started_at attempt connect_timeout rest r h =
    inr (retry_or_fail-ok c v started_at attempt none rest r h)
after_post-ok p c v started_at attempt pool_timeout rest r h =
    inr (retry_or_fail-ok c v started_at attempt none rest r h)
after_post-ok p c v started_at attempt (raised e) rest r h = absurd (ground arith)
after_post-ok p c v started_at attempt x rest r h = absurd (ground arith)

module _ (p : Parsers) (c : Config) (d : ProviderPaymentRequest) (w : ℕ → Round) (started_at : ℕ)
    (r : ProviderPaymentResponse) where
  -- Some POST brought the response.
  abbrev pub IsBrought : Type 0
  IsBrought = (attempt : ℕ) × (timeout : ℕ) × Brings ((w attempt).post timeout) r

  rounds_from-ok :
      (left attempt : ℕ) → (rounds_from p c d w started_at left attempt).result ≡ ok r → IsBrought
  unfolding rounds_from one_round
  rounds_from-ok zero attempt h = absurd (ground arith)
  rounds_from-ok (suc left) attempt h =
      let v = w attempt in
      let remaining = remaining_time c started_at v.post_clock in
      elim (Bool-cases (remaining == 0)) [
        | inl e ↦ absurd (ground arith)
        | inr e ↦
            let timeout = min c.request_timeout remaining in
            elim (after_post-ok p c v started_at attempt (v.post timeout)
              (rounds_from p c d w started_at left (attempt + 1)) r (rw (e, rounds_from) at h)) [
                | inl brings ↦ (attempt, timeout, brings)
                | inr later ↦ rounds_from-ok left (attempt + 1) later
              ]
      ]

  -- A response that the client returns was brought by a POST of this run.
  pub process_payment-ok : (process_payment p c d w started_at).result ≡ ok r → IsBrought
  unfolding process_payment
  process_payment-ok h = rounds_from-ok c.max_attempts 1 h

-- The response of a lookup was brought by it.
pub lookup_result-ok :
    (x : Outcome) (r : ProviderPaymentResponse) → lookup_result x ≡ ok (some r) → Brings x r
unfolding lookup_result
lookup_result-ok (response x) r h = ground arith
lookup_result-ok (raised e) r h = absurd (ground arith)
lookup_result-ok x r h = absurd (ground arith)
