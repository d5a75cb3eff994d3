-- ===== src/Clients/Provider/Retries.antt =====
-- The rounds after a POST, in one run of app/clients/payment_provider.py, `process_payment`.
use async_payment_processing.Prelude.{
  ℕ, zero, suc, ◌+◌, ◌≤◌, ◌<◌, ◌≡◌, ◌≢◌, inl, inr, false, arith, ◌==◌, Bool-cases, ==_iff, ok, err,
  provider_unavailable,
}
use async_payment_processing.Schemas.{ProviderPaymentRequest}
use async_payment_processing.Clients.Provider.{Config, check_config}
use async_payment_processing.Clients.Provider.RetryAfter.{Parsers}
use async_payment_processing.Clients.Provider.Loop.{Round, Run, rounds_from, process_payment}
use async_payment_processing.Clients.Provider.Shape.{
  RoundShape, given_up, ended, continued, round-shape, IsForeign, is_retry_safe,
}
use async_payment_processing.Clients.Provider.Bounds.{posts, check_config-positive}

-- Whatever timeout it is given, the POST of this round may have reached the provider.
abbrev pub MayHaveReached : Round → Type 0
MayHaveReached w = (t : ℕ) → is_retry_safe (w.post t) ≡ false

module _ (p : Parsers) (c : Config) (d : ProviderPaymentRequest) (w : ℕ → Round)
    (started_at : ℕ) where
  -- From `attempt` on, nothing is posted after round `k`, and once it was posted the result is not
  -- that the provider was unavailable.
  abbrev StopsAt : ℕ → ℕ → Run → Type 0
  StopsAt k attempt r =
      (posts r + attempt ≤ k + 1)
      × (posts r + attempt ≡ k + 1 → r.result ≢ err provider_unavailable)

  shape-stops :
      (attempt : ℕ) (rest : Run) {r : Run}
      → RoundShape c d (w attempt) started_at attempt rest r
      → MayHaveReached (w attempt)
      → ((t : ℕ) → IsForeign ((w attempt).post t))
      → StopsAt attempt attempt r
  shape-stops attempt rest (given_up q) reached foreign =
      rw q (omega arith, λ e. absurd (omega arith))
  shape-stops attempt rest (ended timeout result a b e f q) reached foreign =
      rw q (omega arith, λ h. (f (foreign timeout)).1 (reached timeout))
  shape-stops attempt rest (continued timeout clock delay a b e safe ne lt q) reached foreign =
      absurd (ground (arith, reached timeout))

  shape-passes :
      (k attempt : ℕ) (rest : Run) {r : Run}
      → RoundShape c d (w attempt) started_at attempt rest r
      → attempt < k
      → StopsAt k (attempt + 1) rest
      → StopsAt k attempt r
  shape-passes k attempt rest (given_up q) lt h = rw q (omega arith, λ e. absurd (omega arith))
  shape-passes k attempt rest (ended timeout result a b e f q) lt h =
      rw q (omega arith, λ e. absurd (omega arith))
  shape-passes k attempt rest (continued timeout clock delay a b e safe ne le q) lt h =
      rw q (omega (arith, h.0), λ e. h.1 (omega arith))

  rounds_from-stops :
      (k left attempt : ℕ)
      → 0 < c.request_timeout
      → attempt ≤ k
      → MayHaveReached (w k)
      → ((j t : ℕ) → IsForeign ((w j).post t))
      → StopsAt k attempt (rounds_from p c d w started_at left attempt)
  unfolding rounds_from
  rounds_from-stops k zero attempt pos le reached foreign = (omega arith, λ e. λ h. cc)
  rounds_from-stops k (suc left) attempt pos le reached foreign = elim (Bool-cases (attempt == k)) [
    | inl e ↦
        let same : attempt ≡ k = (==_iff attempt k).0 e in
        rw (← same) (
          shape-stops attempt (rounds_from p c d w started_at left (attempt + 1))
            (round-shape p c d (w attempt) started_at attempt _ pos) (rw same reached)
            (foreign attempt))
    | inr e ↦
        shape-passes k attempt (rounds_from p c d w started_at left (attempt + 1))
          (round-shape p c d (w attempt) started_at attempt _ pos) (ground arith)
          (rounds_from-stops k left (attempt + 1) pos (ground arith) reached foreign)
  ]

  -- Under a valid configuration, if the POST of round `k` may have reached the provider (a timeout or
  -- failure after the connection was made, or an answer other than 429 and 503), then nothing is
  -- posted after it, and when it was posted the result is not that the provider is unavailable, which
  -- would let the event be processed again; if httpx itself raises none of the client's errors.
  pub no_blind_repeat :
      (k : ℕ)
      → check_config c ≡ ok c
      → 1 ≤ k
      → MayHaveReached (w k)
      → ((j t : ℕ) → IsForeign ((w j).post t))
      → (posts (process_payment p c d w started_at) ≤ k)
        × (posts (process_payment p c d w started_at) ≡ k
            → (process_payment p c d w started_at).result ≢ err provider_unavailable)
  unfolding process_payment
  no_blind_repeat k valid le reached foreign =
      let (a, b) =
        rounds_from-stops k c.max_attempts 1 (check_config-positive c valid).0 le reached foreign in
      (omega (arith, a), λ e. b (omega arith))
