-- ===== src/Flow/Honest/Mock.antt =====
-- Both workers, with the client in front of the mock provider: app/worker/payment_processor.py,
-- app/services/payment_reconciliation.py, app/clients/payment_provider.py and mock-provider/app/main.py.
use async_payment_processing.Prelude.{ℕ, ◌≡◌, List, All, ◌∷◌, [], ◌∙◌, sym}
use async_payment_processing.Breaker.{Breaker}
use async_payment_processing.Schemas.{EventEnvelope, ProviderPaymentRequest}
use async_payment_processing.Models.{Database}
use async_payment_processing.Clients.Provider
use async_payment_processing.Clients.Provider.{Outcome, lookup_result}
use async_payment_processing.Clients.Provider.Loop.{Round, process_payment}
use async_payment_processing.Clients.Provider.RetryAfter.{Parsers}
use async_payment_processing.MockProvider.Step.{Provider, Reach, started}
use async_payment_processing.Services.Reconciliation
use async_payment_processing.Services.Reconciliation.Loop.{Turn, run}
use async_payment_processing.Worker.Payment
use async_payment_processing.Worker.Payment.{process}
use async_payment_processing.Flow.Agreement.{Agrees}
use async_payment_processing.Flow.WithMock.{
  HasRecord, IsAnswer, IsLookup, process_payment-HasRecord, lookup_result-HasRecord,
}
use async_payment_processing.Flow.Honest.{process-Agrees}
use async_payment_processing.Flow.Honest.Batch.{run-Agrees, KeepsAgreement, AllTrue}

-- Every final status is what the mock provider has recorded, with its id.
abbrev pub AgreesWith : Provider → Database → Type 0
AgreesWith s db = Agrees (HasRecord s.records) db

-- The processor asks the provider by its client, with what each run of it meets, and each response that
-- a POST gets is one of the mock provider about its payment.
pub record AsksMock (s : Provider) (env : Payment.Env) : Type 0 where
  pub parsers : Parsers
  pub config : Provider.Config
  pub rounds : ProviderPaymentRequest → ℕ → Round
  pub started_at : ℕ
  pub asks :
      (d : ProviderPaymentRequest)
      → env.provider d ≡ (process_payment parsers config d (rounds d) started_at).result
  pub answers :
      (d : ProviderPaymentRequest) (attempt timeout : ℕ)
      → IsAnswer s d.payment_id ((rounds d attempt).post timeout)

-- Whatever the mock provider has come to, processing an event keeps every final status what the provider
-- has recorded for the payment, with its id: if the processor asks it by the client with its retries,
-- each response that a POST gets is one that the provider has sent about that payment, and what others
-- commit meanwhile keeps the agreement. Responses may be lost, late or repeated, and the breaker may
-- refuse the call.
pub processed-Agrees :
    (c : Reconciliation.Config) (s : Provider) (env : Payment.Env) (event : EventEnvelope)
    (db : Database) (b : Breaker)
    → Reach started s
    → AsksMock s env
    → ((t : Database) → AgreesWith s t → AgreesWith s (env.others t))
    → AgreesWith s db
    → AgreesWith s (process env event db b).1
processed-Agrees c s env event db b reach ask keep h =
    process-Agrees c (HasRecord s.records) env event db b
      (λ d a q.
        process_payment-HasRecord s reach ask.parsers ask.config d (ask.rounds d) ask.started_at a
          (ask.answers d) (sym (ask.asks d) ∙ q))
      keep h

-- The lookup about a payment, by the client, gets what the mock provider says of it.
abbrev pub LooksUp : Provider → ℕ → Reconciliation.Env → Type 0
LooksUp s k e = (o : Outcome) × (e.lookup ≡ lookup_result o) × IsLookup s k o

-- What others commit in a turn of the loop keeps the agreement, and its lookups ask the mock provider.
abbrev pub AllLookUp : Provider → List Turn → Type 0
AllLookUp s ts =
    All
      (λ t.
        KeepsAgreement (HasRecord s.records) t.before
        × ((k : ℕ)
            → KeepsAgreement (HasRecord s.records) (t.env k).before
              × KeepsAgreement (HasRecord s.records) (t.env k).others
              × LooksUp s k (t.env k)))
      ts

turns-AllTrue : (s : Provider) (ts : List Turn) → AllLookUp s ts → AllTrue (HasRecord s.records) ts
turns-AllTrue s [] h = tt
turns-AllTrue s (t ∷ ts) ((before, during), h) = (
  (
    before,
    λ k.
        let (first, others, (o, asks, says)) = during k in
        (first, others, λ r q. lookup_result-HasRecord s k o r says (sym asks ∙ q)),
  ),
  turns-AllTrue s ts h,
)

-- Whatever the mock provider has come to, the loop of the reconciliation keeps every final status what
-- the provider has recorded for the payment, with its id, for any number of turns, failed and cancelled
-- ones included: if each response that a lookup gets is what the provider says of that payment, with
-- its records as they are or were before, and what others commit meanwhile keeps the agreement.
pub reconciled-Agrees :
    (c : Reconciliation.Config) (s : Provider) (ts : List Turn) (db : Database) (b : Breaker)
    → AllLookUp s ts
    → AgreesWith s db
    → AgreesWith s (run c ts db b).1
reconciled-Agrees c s ts db b asks h =
    run-Agrees c (HasRecord s.records) ts db b (turns-AllTrue s ts asks) h
