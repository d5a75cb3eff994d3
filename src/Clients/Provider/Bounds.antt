-- ===== src/Clients/Provider/Bounds.antt =====
-- The budgets of the retry loop of app/clients/payment_provider.py: attempts, timeouts and waits.
use async_payment_processing.Prelude.{
  ℕ, zero, suc, ◌+◌, ◌-◌, ◌≤◌, ◌<◌, ◌≡◌, refl, ◌≢◌, Bool, true, false, arith, ok, err, tally, All,
  runtime_error,
}
use async_payment_processing.Schemas.{ProviderPaymentRequest}
use async_payment_processing.Clients.Provider.{Config, check_config}
use async_payment_processing.Clients.Provider.RetryAfter.{Parsers}
use async_payment_processing.Clients.Provider.Loop.{
  Round, Action, posted, slept, Run, rounds_from, process_payment,
}
use async_payment_processing.Clients.Provider.Shape.{
  RoundShape, given_up, ended, continued, round-shape, IsForeign,
}

abbrev pub is_post : Action → Bool
is_post (posted k clock t) = true
is_post (slept clock t) = false

-- How often a run posts.
abbrev pub posts : Run → ℕ
posts r = tally is_post r.actions

-- What the budgets allow: a POST for this payment, with a positive timeout that is no longer than the
-- configured one and ends within the total time; or a wait that ends before the total time is over.
abbrev pub IsWithin : Config → ℕ → ℕ → Action → Type 0
IsWithin c payment_id started_at (posted key clock timeout) =
    (key ≡ payment_id)
    × (0 < timeout)
    × (timeout ≤ c.request_timeout)
    × (timeout + (clock - started_at) ≤ c.retry_total_timeout)
IsWithin c payment_id started_at (slept clock delay) =
    delay + (clock - started_at) < c.retry_total_timeout

pub check_config-positive :
    (c : Config) → check_config c ≡ ok c → (0 < c.request_timeout) × (0 < c.max_attempts)
unfolding check_config
check_config-positive c h = ground arith

module _ (p : Parsers) (c : Config) (d : ProviderPaymentRequest) (w : ℕ → Round)
    (started_at : ℕ) where
  abbrev AllWithin : Run → Type 0
  AllWithin r = All (IsWithin c d.payment_id started_at) r.actions

  shape-AllWithin :
      (v : Round) (attempt : ℕ) (rest : Run) {r : Run}
      → RoundShape c d v started_at attempt rest r
      → AllWithin rest
      → AllWithin r
  shape-AllWithin v attempt rest (given_up q) h = rw q tt
  shape-AllWithin v attempt rest (ended timeout result a b e f q) h = rw q ((refl, a, b, e), tt)
  shape-AllWithin v attempt rest (continued timeout clock delay a b e safe ne lt q) h =
      rw q ((refl, a, b, e), (omega arith, h))

  rounds_from-AllWithin :
      (left attempt : ℕ)
      → 0 < c.request_timeout
      → AllWithin (rounds_from p c d w started_at left attempt)
  unfolding rounds_from
  rounds_from-AllWithin zero attempt pos = tt
  rounds_from-AllWithin (suc left) attempt pos =
      shape-AllWithin (w attempt) attempt (rounds_from p c d w started_at left (attempt + 1))
        (round-shape p c d (w attempt) started_at attempt _ pos)
        (rounds_from-AllWithin left (attempt + 1) pos)

  -- Under a valid configuration, whatever the network and the clocks do: every POST carries the id of
  -- the payment as its idempotency key and a positive timeout that ends within the request timeout
  -- and within the total time, and every wait ends before the total time is over.
  pub process_payment-IsWithin :
      check_config c ≡ ok c
      → All (IsWithin c d.payment_id started_at) (process_payment p c d w started_at).actions
  unfolding process_payment
  process_payment-IsWithin valid =
      rounds_from-AllWithin c.max_attempts 1 (check_config-positive c valid).0

  shape-posts :
      (v : Round) (attempt : ℕ) (rest : Run) {r : Run}
      → RoundShape c d v started_at attempt rest r
      → posts r ≤ 1 + posts rest
  shape-posts v attempt rest (given_up q) = rw q (omega arith)
  shape-posts v attempt rest (ended timeout result a b e f q) = rw q (omega arith)
  shape-posts v attempt rest (continued timeout clock delay a b e safe ne lt q) = rw q (omega arith)

  rounds_from-posts :
      (left attempt : ℕ)
      → 0 < c.request_timeout
      → posts (rounds_from p c d w started_at left attempt) ≤ left
  unfolding rounds_from
  rounds_from-posts zero attempt pos = omega arith
  rounds_from-posts (suc left) attempt pos = omega (
    arith,
    shape-posts (w attempt) attempt (rounds_from p c d w started_at left (attempt + 1))
        (round-shape p c d (w attempt) started_at attempt _ pos),
    rounds_from-posts left (attempt + 1) pos,
  )

  shape-ne :
      (v : Round) (attempt : ℕ) (rest : Run) {r : Run}
      → RoundShape c d v started_at attempt rest r
      → ((t : ℕ) → IsForeign (v.post t))
      → (attempt ≢ c.max_attempts → rest.result ≢ err runtime_error)
      → r.result ≢ err runtime_error
  shape-ne v attempt rest (given_up q) foreign h = rw q (λ e. cc)
  shape-ne v attempt rest (ended timeout result a b e f q) foreign h =
      rw q ((f (foreign timeout)).0)
  shape-ne v attempt rest (continued timeout clock delay a b e safe ne lt q) foreign h = rw q (h ne)

  rounds_from-ne :
      (left attempt : ℕ)
      → 0 < c.request_timeout
      → ((k t : ℕ) → IsForeign ((w k).post t))
      → attempt ≤ c.max_attempts
      → attempt + left ≡ c.max_attempts + 1
      → (rounds_from p c d w started_at left attempt).result ≢ err runtime_error
  unfolding rounds_from
  rounds_from-ne zero attempt pos foreign le e = absurd (omega arith)
  rounds_from-ne (suc left) attempt pos foreign le e =
      shape-ne (w attempt) attempt (rounds_from p c d w started_at left (attempt + 1))
        (round-shape p c d (w attempt) started_at attempt _ pos) (foreign attempt)
        (λ ne. rounds_from-ne left (attempt + 1) pos foreign (omega arith) (omega arith))

  -- Under a valid configuration the loop posts at most `max_attempts` times, and its closing
  -- RuntimeError is never reached, if httpx does not itself raise that.
  pub process_payment-posts :
      check_config c ≡ ok c
      → ((k t : ℕ) → IsForeign ((w k).post t))
      → (posts (process_payment p c d w started_at) ≤ c.max_attempts)
        × ((process_payment p c d w started_at).result ≢ err runtime_error)
  unfolding process_payment
  process_payment-posts valid foreign =
      let (pos, some_attempt) = check_config-positive c valid in
      (
        rounds_from-posts c.max_attempts 1 pos,
        rounds_from-ne c.max_attempts 1 pos foreign (omega arith) (omega arith),
      )
