-- ===== src/Flow/Honest.antt =====
-- What the payment processor writes, with the client in front of the mock provider:
-- app/worker/payment_processor.py, app/clients/payment_provider.py and mock-provider/app/main.py.
pub mod Batch
pub mod Mock
use async_payment_processing.Prelude.{
  ℕ, ◌≡◌, refl, ◌⊎◌, inl, inr, Option, none, some, ok, err, Result, arith, Result-cases,
  Option-cases, provider_ambiguous_outcome,
}
use async_payment_processing.Breaker
use async_payment_processing.Breaker.{Breaker}
use async_payment_processing.Schemas.{
  EventEnvelope, EventType-cases, ProviderPaymentRequest, ProviderPaymentResponse,
  provider_payment_request,
}
use async_payment_processing.Models.{Database}
use async_payment_processing.Repositories.Session.{Tx, loads, loads-ok}
use async_payment_processing.Models.Rows.{find, find-id}
use async_payment_processing.Worker.Payment
use async_payment_processing.Worker.Payment.{load_provider_request, after_provider, process}
use async_payment_processing.Clients.Provider
use async_payment_processing.Clients.Provider.{lookup_result}
use async_payment_processing.Clients.Provider.Loop.{Round, process_payment}
use async_payment_processing.Clients.Provider.RetryAfter.{Parsers}
use async_payment_processing.MockProvider.Step.{Provider, started}
use async_payment_processing.Services.Reconciliation
use async_payment_processing.Flow.Agreement.{Agrees, IsHonest, Step-Agrees}
use async_payment_processing.Flow.Reach.{Step, set_unknown, apply, set_sent, persist, renew}

-- What the breaker lets through is the outcome of the call.
pub call-ok {ℓ} :
    {A : Type ℓ} (now later : ℕ) (r : Result A) (meanwhile : Breaker → Breaker) (b : Breaker)
    (a : A)
    → (Breaker.call now r meanwhile later b).0 ≡ ok a
    → r ≡ ok a
unfolding Breaker.call
call-ok now later r meanwhile b a h = elim (Result-cases (Breaker.before_call now b).0) [
  | inl (x, e) ↦ let q = rw e at h in cc
  | inr (probe, e) ↦ rw e at h
]

load_provider_request-id :
    (k : ℕ) (db : Database) (d : ProviderPaymentRequest)
    → load_provider_request k db ≡ ok (some d)
    → d.payment_id ≡ k
unfolding load_provider_request provider_payment_request
load_provider_request-id k db d h = elim (Option-cases (find k db.payments)) [
  | inl e ↦ absurd (ground arith)
  | inr (p, e) ↦ ground (arith, find-id k db.payments p e)
]

module _ (c : Reconciliation.Config) (given : ℕ → ProviderPaymentResponse → Type 0) where
  -- Nothing is written, or one transaction writes what was given.
  abbrev pub IsHonestTo : Database → Database → Type 0
  IsHonestTo db u = (u ≡ db) ⊎ ((st : Step c db u) × IsHonest given st)

  IsHonestTo-Agrees : (db u : Database) → IsHonestTo db u → Agrees given db → Agrees given u
  IsHonestTo-Agrees db u (inl same) h = rw same h
  IsHonestTo-Agrees db u (inr (st, honest)) h = Step-Agrees given st honest h

  after_provider-IsHonestTo :
      (tx : Tx) (k : ℕ) (r : Result ProviderPaymentResponse) (db : Database)
      → ((a : ProviderPaymentResponse) → r ≡ ok a → given k a)
      → IsHonestTo db (after_provider tx k r db).1
  unfolding after_provider
  after_provider-IsHonestTo tx k (ok response) db h = inr (apply tx k response, h response refl)
  after_provider-IsHonestTo tx k (err provider_ambiguous_outcome) db h = inr (set_unknown tx k, tt)
  after_provider-IsHonestTo tx k (err e) db h = inl refl

  -- Processing an event keeps the agreement with whatever has given its answers.
  process-Agrees :
      (env : Payment.Env) (event : EventEnvelope) (db : Database) (b : Breaker)
      → ((d : ProviderPaymentRequest) (a : ProviderPaymentResponse)
          → env.provider d ≡ ok a
          → given d.payment_id a)
      → ((t : Database) → Agrees given t → Agrees given (env.others t))
      → Agrees given db
      → Agrees given (process env event db b).1
  unfolding process
  process-Agrees env event db b gives keep h = elim (EventType-cases event.event_type) [
    | inr t ↦ rw t h
    | inl t ↦ elim (Result-cases (loads env.reads (load_provider_request event.payment_id db))) [
      | inl (e, q) ↦ rw (t, q) h
      | inr (request, q) ↦ elim (Option-cases request) [
        | inl n ↦ rw (t, q, n) h
        | inr (d, n) ↦
            let same =
              load_provider_request-id event.payment_id db d (loads-ok env.reads _ (rw n at q)) in
            rw (t, q, n)
              (IsHonestTo-Agrees (env.others db) _
                (after_provider-IsHonestTo env.tx event.payment_id
                  (Breaker.call env.started (env.provider d) env.other_calls env.ended b).0
                  (env.others db)
                  (λ a o. rw same at (
                    gives d a
                      (call-ok env.started env.ended (env.provider d) env.other_calls b a o))))
                (keep db h))
      ]
    ]
  ]
