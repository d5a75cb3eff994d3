-- ===== src/Clients/Provider/Loop.antt =====
-- The retry loop: app/clients/payment_provider.py, `process_payment`, `_post_payment` and
-- `_wait_before_retry`.
use async_payment_processing.Prelude.{
  ℕ, zero, suc, ◌+◌, ◌-◌, ◌*◌, ◌^◌, min, ◌&&◌, ◌||◌, Option, none, some, List, [], ◌∷◌,
  if◌then◌else◌, ◌==◌, ltb, leb, err, Result, provider_permanent, provider_unavailable,
  provider_ambiguous_outcome, value_error, runtime_error,
}
use async_payment_processing.Schemas.{ProviderPaymentRequest, ProviderPaymentResponse}
use async_payment_processing.Clients.Provider.{
  Config, Seconds, nan, infinity, negative, finite, Response, Outcome, response, connect_error,
  connect_timeout, pool_timeout, raised, is_success, parse_success_response,
}
use async_payment_processing.Clients.Provider.RetryAfter.{Parsers, get_retry_after}

-- What one round of the loop meets: the clock before the POST, the outcome of the POST with its
-- timeout, the wall clock, the clock before the wait, and `random.uniform(0, interval)`.
pub record Round : Type 0 where
  pub post_clock : ℕ
  pub post : ℕ → Outcome
  pub wall_clock : ℕ
  pub wait_clock : ℕ
  pub uniform : ℕ → ℕ

-- What the loop does that others see. Each POST carries the id of the payment as its idempotency key.
pub data Action : Type 0 where
  posted : (idempotency_key clock timeout : ℕ) → Action
  slept : (clock delay : ℕ) → Action

pub record Run : Type 0 where
  pub actions : List Action
  pub result : Result ProviderPaymentResponse

abbrev pub ends : Result ProviderPaymentResponse → Run
ends r = record { actions = []; result = r }

abbrev pub then_run : Action → Run → Run
then_run a r = record { actions = a ∷ r.actions; result = r.result }

-- `retry_base_delay_seconds * 2 ** (attempt - 1)`, at most `retry_max_delay_seconds`
abbrev pub retry_interval : Config → ℕ → ℕ
retry_interval c attempt = min (c.retry_base_delay * 2 ^ (attempt - 1)) c.retry_max_delay

-- The delay that `_wait_before_retry` takes.
abbrev pub delay_of : Config → Round → ℕ → Option Seconds → Seconds
delay_of c w attempt none = finite (w.uniform (retry_interval c attempt))
delay_of c w attempt (some s) = s

-- `retry_total_timeout_seconds - (time.monotonic() - started_at)`, which the code only compares with
-- 0 and with delays: what lies below 0 is 0 here.
abbrev pub remaining_time : Config → ℕ → ℕ → ℕ
remaining_time c started_at clock = c.retry_total_timeout - (clock - started_at)

-- `delay >= remaining_time`, and then `asyncio.sleep(delay)`: from Python 3.13 on, and pyproject.toml
-- asks for 3.14, it is documented to raise ValueError on NaN, for which the comparison is false.
unfoldable pub sleep_then : ℕ → ℕ → Seconds → Run → Run
sleep_then clock remaining infinity rest = ends (err provider_unavailable)
sleep_then clock remaining nan rest = ends (err value_error)
sleep_then clock remaining negative rest =
    if remaining == 0 then ends (err provider_unavailable) else then_run (slept clock 0) rest
sleep_then clock remaining (finite delay) rest =
    if leb remaining delay
    then ends (err provider_unavailable)
    else then_run (slept clock delay) rest

-- `_wait_before_retry`, and the rounds after it.
unfoldable pub wait_before_retry : Config → Round → ℕ → ℕ → Option Seconds → Run → Run
unfolding sleep_then
wait_before_retry c w started_at attempt retry_after rest =
    sleep_then w.wait_clock (remaining_time c started_at w.wait_clock)
      (delay_of c w attempt retry_after) rest

-- `attempt == max_attempts` ends the loop, and otherwise it waits.
unfoldable pub retry_or_fail : Config → Round → ℕ → ℕ → Option Seconds → Run → Run
unfolding wait_before_retry
retry_or_fail c w started_at attempt retry_after rest =
    if attempt == c.max_attempts
    then ends (err provider_unavailable)
    else wait_before_retry c w started_at attempt retry_after rest

unfoldable pub after_response : Parsers → Config → Round → ℕ → ℕ → Response → Run → Run
unfolding retry_or_fail parse_success_response
after_response p c w started_at attempt r rest =
    if is_success r.status_code
    then ends (parse_success_response r.body)
    else if (r.status_code == 429) || (r.status_code == 503)
    then retry_or_fail c w started_at attempt (get_retry_after p w.wall_clock r.retry_after) rest
    else if (r.status_code == 408) || (leb 500 r.status_code && ltb r.status_code 600)
    then ends (err provider_ambiguous_outcome)
    else ends (err (provider_permanent r.status_code))

-- The `except` clauses around the POST, and what follows it.
unfoldable pub after_post : Parsers → Config → Round → ℕ → ℕ → Outcome → Run → Run
unfolding after_response
after_post p c w started_at attempt (response r) rest =
    after_response p c w started_at attempt r rest
after_post p c w started_at attempt connect_error rest =
    retry_or_fail c w started_at attempt none rest
after_post p c w started_at attempt connect_timeout rest =
    retry_or_fail c w started_at attempt none rest
after_post p c w started_at attempt pool_timeout rest =
    retry_or_fail c w started_at attempt none rest
after_post p c w started_at attempt (raised e) rest = ends (err e)
after_post p c w started_at attempt _ rest = ends (err provider_ambiguous_outcome)

-- One round: `_post_payment` gives up if no time remains, and otherwise posts.
unfoldable pub one_round : Parsers → Config → ProviderPaymentRequest → Round → ℕ → ℕ → Run → Run
unfolding after_post
one_round p c d w started_at attempt rest =
    let remaining = remaining_time c started_at w.post_clock in
    if remaining == 0
    then ends (err provider_unavailable)
    else let timeout = min c.request_timeout remaining in
      then_run (posted d.payment_id w.post_clock timeout)
        (after_post p c w started_at attempt (w.post timeout) rest)

-- The rounds that are left, from `attempt` on.
unfoldable pub rounds_from :
    Parsers → Config → ProviderPaymentRequest → (ℕ → Round) → ℕ → ℕ → ℕ → Run
unfolding one_round
rounds_from p c d w started_at zero attempt = ends (err runtime_error)
rounds_from p c d w started_at (suc left) attempt =
    let rest = rounds_from p c d w started_at left (attempt + 1) in
    one_round p c d (w attempt) started_at attempt rest

-- `process_payment`
unfoldable pub process_payment : Parsers → Config → ProviderPaymentRequest → (ℕ → Round) → ℕ → Run
unfolding rounds_from
process_payment p c d w started_at = rounds_from p c d w started_at c.max_attempts 1
