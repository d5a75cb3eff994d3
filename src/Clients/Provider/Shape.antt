-- ===== src/Clients/Provider/Shape.antt =====
-- The three ways in which a round of the retry loop can go.
use async_payment_processing.Prelude.{
  ℕ, ◌+◌, ◌-◌, ◌≤◌, ◌<◌, ◌≡◌, ◌≢◌, Bool, true, false, ◌||◌, Option, ◌==◌, err, Result,
  provider_unavailable, runtime_error, refl, ap, inl, inr, ◌&&◌, none, some, arith, ltb, leb,
  Bool-cases, Error, value_error,
}
use async_payment_processing.Schemas.{ProviderPaymentRequest, ProviderPaymentResponse}
use async_payment_processing.Clients.Provider.{
  Config, Seconds, nan, infinity, negative, finite, Response, Outcome, response, connect_error,
  connect_timeout, pool_timeout, raised, parse_success_response, is_success,
}
use async_payment_processing.Clients.Provider.RetryAfter.{Parsers, get_retry_after}
use async_payment_processing.Clients.Provider.Loop.{
  Round, posted, slept, Run, ends, then_run, remaining_time, retry_or_fail, after_response,
  after_post, one_round, sleep_then, delay_of,
}

-- The POST cannot have been processed: the connection was never made, or the provider says so.
abbrev pub is_retry_safe : Outcome → Bool
is_retry_safe connect_error = true
is_retry_safe connect_timeout = true
is_retry_safe pool_timeout = true
is_retry_safe (response r) = (r.status_code == 429) || (r.status_code == 503)
is_retry_safe _ = false

-- What httpx raises is none of the exceptions that the client itself raises.
abbrev pub IsForeign : Outcome → Type 0
IsForeign (raised e) = (e ≢ provider_unavailable) × (e ≢ runtime_error)
IsForeign _ = Unit

-- A round gives up with no POST, or ends with its POST, or waits and goes on.
pub data RoundShape (c : Config) (d : ProviderPaymentRequest) (w : Round) (started_at attempt : ℕ)
    (rest r : Run) : Type 0 where
  given_up : r ≡ ends (err provider_unavailable) → RoundShape c d w started_at attempt rest r
  ended :
      (timeout : ℕ) (result : Result ProviderPaymentResponse)
      → 0 < timeout
      → timeout ≤ c.request_timeout
      → timeout + (w.post_clock - started_at) ≤ c.retry_total_timeout
      → (IsForeign (w.post timeout)
          → (result ≢ err runtime_error)
            × (is_retry_safe (w.post timeout) ≡ false → result ≢ err provider_unavailable))
      → r ≡ then_run (posted d.payment_id w.post_clock timeout) (ends result)
      → RoundShape c d w started_at attempt rest r
  continued :
      (timeout clock delay : ℕ)
      → 0 < timeout
      → timeout ≤ c.request_timeout
      → timeout + (w.post_clock - started_at) ≤ c.retry_total_timeout
      → is_retry_safe (w.post timeout) ≡ true
      → attempt ≢ c.max_attempts
      → (clock - started_at) + delay < c.retry_total_timeout
      → r ≡ then_run (posted d.payment_id w.post_clock timeout) (then_run (slept clock delay) rest)
      → RoundShape c d w started_at attempt rest r

-- What follows the POST of a round.
data TailShape (c : Config) (started_at attempt : ℕ) (o : Outcome) (rest r : Run) : Type 0 where
  stops :
      (result : Result ProviderPaymentResponse)
      → (IsForeign o
          → (result ≢ err runtime_error)
            × (is_retry_safe o ≡ false → result ≢ err provider_unavailable))
      → r ≡ ends result
      → TailShape c started_at attempt o rest r
  waits :
      (clock delay : ℕ)
      → is_retry_safe o ≡ true
      → attempt ≢ c.max_attempts
      → (clock - started_at) + delay < c.retry_total_timeout
      → r ≡ then_run (slept clock delay) rest
      → TailShape c started_at attempt o rest r

module _ (c : Config) (w : Round) (started_at attempt : ℕ) (o : Outcome) (rest : Run) where
  abbrev Tail : Run → Type 0
  Tail r = TailShape c started_at attempt o rest r

  stops_by :
      (e : Error)
      → e ≢ runtime_error
      → is_retry_safe o ≡ true
      → {r : Run} → r ≡ ends (err e)
      → Tail r
  stops_by e ne safe q = stops (err e) (λ foreign. (λ h. ground arith, λ unsafe. cc)) q

  sleep-shape :
      (clock : ℕ) (s : Seconds)
      → is_retry_safe o ≡ true
      → attempt ≢ c.max_attempts
      → Tail (sleep_then clock (remaining_time c started_at clock) s rest)
  unfolding sleep_then
  sleep-shape clock infinity safe ne = stops_by provider_unavailable (λ h. cc) safe refl
  sleep-shape clock nan safe ne = stops_by value_error (λ h. cc) safe refl
  sleep-shape clock negative safe ne = elim (Bool-cases (remaining_time c started_at clock == 0)) [
    | inl e ↦ stops_by provider_unavailable (λ h. cc) safe (rw e)
    | inr e ↦ waits clock 0 safe ne (ground arith) (rw e)
  ]
  sleep-shape clock (finite delay) safe ne =
      elim (Bool-cases (leb (remaining_time c started_at clock) delay)) [
        | inl e ↦ stops_by provider_unavailable (λ h. cc) safe (rw e)
        | inr e ↦ waits clock delay safe ne (ground arith) (rw e)
      ]

  retry-shape :
      (s : Option Seconds)
      → is_retry_safe o ≡ true
      → Tail (retry_or_fail c w started_at attempt s rest)
  unfolding retry_or_fail
  retry-shape s safe = elim (Bool-cases (attempt == c.max_attempts)) [
    | inl e ↦ rw e (stops_by provider_unavailable (λ h. cc) safe refl)
    | inr e ↦ rw e (sleep-shape w.wait_clock (delay_of c w attempt s) safe (ground arith))
  ]

  stops_with :
      (result : Result ProviderPaymentResponse)
      → result ≢ err runtime_error
      → result ≢ err provider_unavailable
      → Tail (ends result)
  stops_with result a b = stops result (λ foreign. (a, λ unsafe. b)) refl

parsed-ne :
    (b : Option ProviderPaymentResponse)
    → (parse_success_response b ≢ err runtime_error)
      × (parse_success_response b ≢ err provider_unavailable)
unfolding parse_success_response
parsed-ne none = (λ h. cc, λ h. cc)
parsed-ne (some r) = (λ h. cc, λ h. cc)

response-shape :
    (p : Parsers) (c : Config) (w : Round) (started_at attempt : ℕ) (r : Response) (rest : Run)
    → TailShape c started_at attempt
        (response r)
        rest
        (after_response p c w started_at attempt r rest)
unfolding after_response
response-shape p c w started_at attempt r rest = elim (Bool-cases (is_success r.status_code)) [
  | inl e ↦ rw e (
      stops_with c w started_at attempt (response r) rest _ (parsed-ne r.body).0
        (parsed-ne r.body).1)
  | inr e ↦ elim (Bool-cases ((r.status_code == 429) || (r.status_code == 503))) [
    | inl f ↦
        rw (e, f)
          (retry-shape c w started_at attempt (response r) rest
            (get_retry_after p w.wall_clock r.retry_after) f)
    | inr f ↦
        elim (Bool-cases
          ((r.status_code == 408) || (leb 500 r.status_code && ltb r.status_code 600))) [
            | inl g ↦
                rw (e, f, g)
                  (stops_with c w started_at attempt (response r) rest _ (λ h. cc) (λ h. cc))
            | inr g ↦
                rw (e, f, g)
                  (stops_with c w started_at attempt (response r) rest _ (λ h. cc) (λ h. cc))
          ]
  ]
]

tail-shape :
    (p : Parsers) (c : Config) (w : Round) (started_at attempt : ℕ) (o : Outcome) (rest : Run)
    → TailShape c started_at attempt o rest (after_post p c w started_at attempt o rest)
unfolding after_post
tail-shape p c w started_at attempt (response r) rest =
    response-shape p c w started_at attempt r rest
tail-shape p c w started_at attempt connect_error rest =
    retry-shape c w started_at attempt connect_error rest none refl
tail-shape p c w started_at attempt connect_timeout rest =
    retry-shape c w started_at attempt connect_timeout rest none refl
tail-shape p c w started_at attempt pool_timeout rest =
    retry-shape c w started_at attempt pool_timeout rest none refl
tail-shape p c w started_at attempt (raised e) rest =
    stops (err e) (λ f. (λ h. f.1 (cc), λ u h. f.0 (cc))) refl
tail-shape p c w started_at attempt o rest =
    stops_with c w started_at attempt o rest _ (λ h. cc) (λ h. cc)

posted-shape :
    {c : Config} {d : ProviderPaymentRequest} {w : Round} {started_at attempt timeout : ℕ}
    {rest t : Run}
    → 0 < timeout
    → timeout ≤ c.request_timeout
    → timeout + (w.post_clock - started_at) ≤ c.retry_total_timeout
    → TailShape c started_at attempt (w.post timeout) rest t
    → RoundShape c d w started_at attempt rest
        (then_run (posted d.payment_id w.post_clock timeout) t)
posted-shape {d} {w} {timeout} a b e (stops result f q) =
    ended timeout result a b e f (ap (then_run (posted d.payment_id w.post_clock timeout)) q)
posted-shape {d} {w} {timeout} a b e (waits clock delay safe ne lt q) =
    continued timeout clock delay a b e safe ne lt
      (ap (then_run (posted d.payment_id w.post_clock timeout)) q)

-- Every round takes one of the three shapes.
pub round-shape :
    (p : Parsers) (c : Config) (d : ProviderPaymentRequest) (w : Round) (started_at attempt : ℕ)
    (rest : Run)
    → 0 < c.request_timeout
    → RoundShape c d w started_at attempt rest (one_round p c d w started_at attempt rest)
unfolding one_round
round-shape p c d w started_at attempt rest pos =
    elim (Bool-cases (remaining_time c started_at w.post_clock == 0)) [
      | inl e ↦ rw e (given_up refl)
      | inr e ↦ rw e (
          posted-shape (ground arith) (omega arith) (ground arith)
            (tail-shape p c w started_at attempt _ rest))
    ]
