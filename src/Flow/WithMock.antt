-- ===== src/Flow/WithMock.antt =====
-- The service with the mock provider behind its client: mock-provider/app/main.py and
-- app/clients/payment_provider.py. Responses may be lost on the way, late or repeated.
use async_payment_processing.Prelude.{
  ℕ, ◌≡◌, refl, none, some, ok, arith, List, ◌∷◌, ◌++◌, inl, inr, Option-cases,
}
use async_payment_processing.Schemas.{ProviderPaymentRequest, ProviderPaymentResponse}
use async_payment_processing.Clients.Provider.{Config, Response, Outcome, response, lookup_result}
use async_payment_processing.Clients.Provider.RetryAfter.{Parsers}
use async_payment_processing.Clients.Provider.Loop.{Round, process_payment}
use async_payment_processing.Clients.Provider.Source.{Brings, process_payment-ok, lookup_result-ok}
use async_payment_processing.MockProvider.Payments.{
  ProcessPaymentRequest, ProcessPaymentResponse, IdempotencyRecord, Records, Reply, http_error,
  replied, malformed, look_up,
}
use async_payment_processing.MockProvider.Step
use async_payment_processing.MockProvider.Step.{Provider, Answered, Reach, next, started}
use async_payment_processing.MockProvider.Guard.{All-without}
use async_payment_processing.MockProvider.Contract.{Explained, view, silent, Service-keeps, Extends}
use async_payment_processing.MockProvider.Contract.Runs.{
  Reach-IsRefined, Reach-refines, Step-IsRefined,
}
use async_payment_processing.Flow.Agreement.{ProviderContract}

-- The response of the mock provider as the client validates it.
abbrev pub received : ProcessPaymentResponse → ProviderPaymentResponse
received a = record { provider_payment_id = a.provider_payment_id; status = a.status }

-- The HTTP response; a body without its id is no `ProviderPaymentResponse`.
abbrev pub http_response : Reply → Response
http_response (http_error code) = record { status_code = code; retry_after = none; body = none }
http_response (replied a) = record {
  status_code = 200;
  retry_after = none;
  body = some (received a);
}
http_response (malformed a) = record { status_code = 200; retry_after = none; body = none }

-- The mock provider has a record of the payment with this response.
abbrev pub HasRecord : Records → ℕ → ProviderPaymentResponse → Type 0
HasRecord records k r = (x : IdempotencyRecord) × (records k ≡ some x) × (received x.response ≡ r)

pub Step-keeps :
    {s t : Provider} (k : ℕ) (r : ProviderPaymentResponse)
    → Reach started s
    → Step.Step s t
    → HasRecord s.records k r
    → HasRecord t.records k r
Step-keeps {s} {t} k r reach st (x, at, same) = (
  x,
  Service-keeps (Step-IsRefined (view s) st (silent, (Reach-IsRefined reach).1)).0 k x at,
  same,
)

-- The mock provider as the service relies on it.
abbrev pub mock_provider : ProviderContract
mock_provider = record {
  State = (s : Provider) × Reach started s;
  Moves = λ a b. Step.Step (a.0) (b.0);
  Given = λ a k r. HasRecord ((a.0).records) k r;
  keeps = λ a b m k r g. Step-keeps k r (a.1) m g;
}

-- If a request of this payment has got a response, then it is one that the mock provider has sent.
abbrev pub IsAnswer : Provider → ℕ → Outcome → Type 0
IsAnswer s k o =
    (x : Response)
    → o ≡ response x
    → (before : List Answered) × (a : Answered) × (after : List Answered) × (s.history
        ≡ before ++ a ∷ after)
      × (a.payment.payment_id ≡ k)
      × (x ≡ http_response a.reply)

-- If a lookup of this payment has got a response, then it is what the mock provider says of its records, as
-- they are or were before.
abbrev pub IsLookup : Provider → ℕ → Outcome → Type 0
IsLookup s k o =
    (x : Response)
    → o ≡ response x
    → (earlier : Records) × Extends earlier s.records × (x ≡ http_response (look_up k earlier))

reply-HasRecord :
    (records : Records) (payment : ProcessPaymentRequest) (reply : Reply)
    (r : ProviderPaymentResponse)
    → Explained records payment reply
    → (http_response reply).body ≡ some r
    → HasRecord records payment.payment_id r
reply-HasRecord records payment (http_error code) r e h = absurd (ground arith)
reply-HasRecord records payment (replied a) r (x, at, same, made) h = (x, at, ground arith)
reply-HasRecord records payment (malformed a) r e h = absurd (ground arith)

look_up-body :
    (records : Records) (k : ℕ) (r : ProviderPaymentResponse)
    → (http_response (look_up k records)).body ≡ some r
    → HasRecord records k r
unfolding look_up
look_up-body records k r h = elim (Option-cases (records k)) [
  | inl e ↦ absurd (ground arith)
  | inr (x, e) ↦ (x, e, ground arith)
]

lookup-HasRecord :
    (s : Provider) (k : ℕ) (o : Outcome) (r : ProviderPaymentResponse)
    → IsLookup s k o
    → Brings o r
    → HasRecord s.records k r
lookup-HasRecord s k (response x) r h brings =
    let (earlier, e, same) = h x refl in
    let (y, at, made) = look_up-body earlier k r (rw same at brings) in (y, e k y at, made)
lookup-HasRecord s k o r h brings = elim brings [ ]

-- A response that a lookup brings is that of the record.
pub lookup_result-HasRecord :
    (s : Provider) (k : ℕ) (o : Outcome) (r : ProviderPaymentResponse)
    → IsLookup s k o
    → lookup_result o ≡ ok (some r)
    → HasRecord s.records k r
lookup_result-HasRecord s k o r gets h = lookup-HasRecord s k o r gets (lookup_result-ok o r h)

module _ (s : Provider) (reach : Reach started s) where
  answer-HasRecord :
      (k : ℕ) (o : Outcome) (r : ProviderPaymentResponse)
      → IsAnswer s k o
      → Brings o r
      → HasRecord s.records k r
  answer-HasRecord k (response x) r h brings =
      let (before, a, after, at, key, same) = h x refl in
      let explained =
        (All-without (λ b. Explained s.records b.payment b.reply) before a after
          (rw at at ((Reach-refines reach).1))).0 in
      let own = reply-HasRecord s.records a.payment a.reply r explained (ground arith) in
      rw key at own
  answer-HasRecord k o r h brings = elim brings [ ]

  -- A response that a payment brings is that of the record.
  pub process_payment-HasRecord :
      (p : Parsers) (c : Config) (d : ProviderPaymentRequest) (w : ℕ → Round) (started_at : ℕ)
      (r : ProviderPaymentResponse)
      → ((attempt timeout : ℕ) → IsAnswer s d.payment_id ((w attempt).post timeout))
      → (process_payment p c d w started_at).result ≡ ok r
      → HasRecord s.records d.payment_id r
  process_payment-HasRecord p c d w started_at r posts h =
      let (attempt, timeout, brings) = process_payment-ok p c d w started_at r h in
      answer-HasRecord d.payment_id _ r (posts attempt timeout) brings
