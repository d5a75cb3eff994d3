-- ===== src/Flow/Agreement.antt =====
-- The final statuses beside the provider: app/services, app/worker and the service that they ask.
use async_payment_processing.Prelude.{ℕ, ◌≡◌, refl, inl, inr, true, none, some, arith}
use async_payment_processing.Schemas.{ProviderPaymentResponse, is_terminal}
use async_payment_processing.Models.{Payment, Database}
use async_payment_processing.Models.Rows.{find}
use async_payment_processing.Services.Reconciliation.{Config}
use async_payment_processing.Flow.Origin.{Says, HasOrigins}
use async_payment_processing.Flow.Origin.Transactions.{
  insert-HasOrigins, mark_unknown-HasOrigins, apply_provider_result-HasOrigins,
  mark_sent-HasOrigins, relay-HasOrigins, claim_batch-HasOrigins, renew_claim-HasOrigins,
  persist_resolution-HasOrigins,
}
use async_payment_processing.Flow.Reach.{
  Step, insert, set_unknown, apply, set_sent, relay, claim, renew, persist, empty, Step-Advances,
}

-- What the service relies on in a provider: it keeps a response that it has given for a payment.
pub record ProviderContract : Type 1 where
  pub State : Type 0
  pub Moves : State → State → Type 0
  pub Given : State → ℕ → ProviderPaymentResponse → Type 0
  pub keeps :
      (s t : State) → Moves s t → (k : ℕ) (r : ProviderPaymentResponse) → Given s k r → Given t k r

-- A response that a transaction writes has been given by the provider for that payment.
abbrev pub IsHonest :
    {c : Config} {t u : Database} → (ℕ → ProviderPaymentResponse → Type 0) → Step c t u → Type 0
IsHonest given (apply tx k r) = given k r
IsHonest given (persist tx at k token (some r)) = given k r
IsHonest given _ = Unit

-- Each transaction finds the origin of each status.
Step-HasOrigins :
    {c : Config} {t u : Database} (given : ℕ → ProviderPaymentResponse → Type 0) (st : Step c t u)
    → IsHonest given st
    → HasOrigins given t u
Step-HasOrigins {c} {t} given (insert tx event_id d key fingerprint valid) h =
    insert-HasOrigins given t tx _ _ refl
Step-HasOrigins {c} {t} given (set_unknown tx k) h = mark_unknown-HasOrigins given t tx k
Step-HasOrigins {c} {t} given (apply tx k r) h = apply_provider_result-HasOrigins given t tx k r h
Step-HasOrigins {c} {t} given (set_sent tx k event_id) h =
    mark_sent-HasOrigins given t tx k event_id
Step-HasOrigins {c} {t} given (relay broker tx locked size) h =
    relay-HasOrigins given t broker tx locked size
Step-HasOrigins {c} {t} given (claim tx locked) h = claim_batch-HasOrigins given t c tx locked
Step-HasOrigins {c} {t} given (renew tx k token) h = renew_claim-HasOrigins given t c tx k token
Step-HasOrigins {c} {t} given (persist tx at k token none) h =
    persist_resolution-HasOrigins given t c tx at k token none (λ r e. cc)
Step-HasOrigins {c} {t} given (persist tx at k token (some r)) h =
    persist_resolution-HasOrigins given t c tx at k token (some r)
      (λ q e. let same : r ≡ q = cc in rw same at h)

-- Every final status, with its provider's id, is what the provider has given.
abbrev pub Agrees : (ℕ → ProviderPaymentResponse → Type 0) → Database → Type 0
Agrees given db =
    (k : ℕ) (p : Payment)
    → find k db.payments ≡ some p
    → is_terminal p.status ≡ true
    → (r : ProviderPaymentResponse) × given k r × Says r p

empty-Agrees : (given : ℕ → ProviderPaymentResponse → Type 0) → Agrees given empty
unfolding find
empty-Agrees given k p f final = cc

-- A transaction that writes only what was given keeps the agreement.
pub Step-Agrees :
    {c : Config} {t u : Database} (given : ℕ → ProviderPaymentResponse → Type 0) (st : Step c t u)
    → IsHonest given st
    → Agrees given t
    → Agrees given u
Step-Agrees {t} given st honest h k p f final = elim (Step-HasOrigins given st honest k p f) [
  | inl idle ↦ absurd (ground arith)
  | inr (inl (q, g, same)) ↦
      let (r, gave, says) = h k q g (ground arith) in
      let (p', f', later) = Step-Advances st k q g in
      let eq : p' ≡ p = ground arith in (r, gave, ground (arith, later))
  | inr (inr origin) ↦ origin
]

module _ (c : Config) (pc : ProviderContract) where
  open pc use {State, Moves, Given, keeps}

  -- The database and the provider.
  pub record World : Type 0 where
    pub db : Database
    pub provider : State

  pub data Move (w : World) : World → Type 0 where
    local :
        {u : Database} (st : Step c w.db u)
        → IsHonest (Given w.provider) st
        → Move w (record w { db = u })
    remote : {t : State} → Moves w.provider t → Move w (record w { provider = t })

  pub data Leads (w : World) : World → Type 0 where
    here : Leads w w
    next : {u v : World} → Leads w u → Move u v → Leads w v

  Move-Agrees :
      {w u : World} → Move w u → Agrees (Given w.provider) w.db → Agrees (Given u.provider) u.db
  Move-Agrees {w} (local st honest) h = Step-Agrees (Given w.provider) st honest h
  Move-Agrees {w} (remote {t} m) h =
      λ k p f final. let (r, gave, says) = h k p f final in (r, keeps w.provider t m k r gave, says)

  -- Whatever the service, its workers and the provider do, in any order and with any failures, if each
  -- response that is written was given by the provider for that payment, and the provider keeps what
  -- it has given, then every final status is the one that the provider has for the payment, with
  -- its id.
  pub Leads-Agrees :
      {s : State} {w : World}
      → Leads (record { db = empty; provider = s }) w
      → Agrees (Given w.provider) w.db
  Leads-Agrees {s} here = empty-Agrees (Given s)
  Leads-Agrees (next l m) = Move-Agrees m (Leads-Agrees l)
