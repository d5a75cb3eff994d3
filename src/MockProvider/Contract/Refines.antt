-- ===== src/MockProvider/Contract/Refines.antt =====
-- The steps of the mock provider against the abstract service: mock-provider/app/main.py,
-- `process_payment`.
use async_payment_processing.Prelude.{
  ℕ, ◌≡◌, refl, ◌⊎◌, inl, inr, true, Option, List, arith, All, Bool, none, some, [], ◌∷◌,
  Option-cases, Bool-cases,
}
use async_payment_processing.Prelude.Maps.{update}
use async_payment_processing.MockProvider.Payments.{
  Scenario, ProcessPaymentRequest, ProcessPaymentResponse, IdempotencyRecord, Records, Reply,
  http_error, replied, malformed, same_request, Phase, failing, sleeping, waiting, delayed, Begun,
  answered, sleeps, locks, begin, Served, answers, delays, serve, serve_record, new_answer,
  provider_status,
}
use async_payment_processing.MockProvider.Step.{Provider, Task, begun, queue, served, process}
use async_payment_processing.MockProvider.Locks.{leave}
use async_payment_processing.MockProvider.Contract.{
  Explained, HasResponse, Extends, Extends-update, Explained-Extends, View, view, Service, creates,
  replies,
}

-- A reply that is delayed is explained already.
abbrev pub Prepared : Records → ProcessPaymentRequest → Phase → Type 0
Prepared r payment (delayed reply) = Explained r payment reply
Prepared r payment _ = Unit

abbrev pub AllPrepared : Records → List Task → Type 0
AllPrepared r ts = All (λ t. Prepared r t.payment t.phase) ts

Prepared-Extends :
    (r r' : Records) (payment : ProcessPaymentRequest) (f : Phase)
    → Extends r r'
    → Prepared r payment f
    → Prepared r' payment f
Prepared-Extends r r' payment failing e h = tt
Prepared-Extends r r' payment sleeping e h = tt
Prepared-Extends r r' payment (waiting x) e h = tt
Prepared-Extends r r' payment (delayed reply) e h = Explained-Extends r r' payment reply e h

AllPrepared-Extends :
    (r r' : Records) (ts : List Task) → Extends r r' → AllPrepared r ts → AllPrepared r' ts
AllPrepared-Extends r r' [] e h = tt
AllPrepared-Extends r r' (t ∷ ts) e h =
    (Prepared-Extends r r' t.payment t.phase e h.0, AllPrepared-Extends r r' ts e h.1)

-- The state is one of the abstract service, and what is delayed is explained.
abbrev pub IsRefined : View → Provider → Type 0
IsRefined x s = Service x (view s) × AllPrepared s.records s.tasks

same_request_refl : (p : ProcessPaymentRequest) → same_request p p ≡ true
same_request_refl p = ground arith

module _ (x : View) where
  pub begun-IsRefined :
      (payment : ProcessPaymentRequest) (scenario : Option Scenario) (b : Begun) (s : Provider)
      → ((f : Phase) → b ≡ sleeps f → Prepared s.records payment f)
      → ((reply : Reply) → b ≡ answered reply → Explained s.records payment reply)
      → IsRefined x s
      → IsRefined x (begun payment scenario b s)
  unfolding begun queue
  begun-IsRefined payment scenario (answered reply) s f g h =
      (replies h.0 payment reply (g reply refl), h.1)
  begun-IsRefined payment scenario (sleeps f') s f g h = (h.0, (f f' refl, h.1))
  begun-IsRefined payment scenario locks s f g h = (h.0, (tt, h.1))

  served-IsRefined :
      (payment : ProcessPaymentRequest) (scenario : Option Scenario) (y : Served) (s : Provider)
      → ((reply : Reply)
          → (y ≡ answers reply) ⊎ (y ≡ delays reply)
          → Explained s.records payment reply)
      → IsRefined x s
      → IsRefined x (served payment scenario y s)
  unfolding served
  served-IsRefined payment scenario (answers reply) s f h =
      (replies h.0 payment reply (f reply (inl refl)), h.1)
  served-IsRefined payment scenario (delays reply) s f h = (h.0, (f reply (inr refl), h.1))

pub begin-Prepared :
    (r : Records) (payment : ProcessPaymentRequest) (key : ℕ) (scenario : Option Scenario)
    (f : Phase)
    → begin payment key scenario ≡ sleeps f
    → Prepared r payment f
unfolding begin
begin-Prepared r payment key scenario failing h = tt
begin-Prepared r payment key scenario sleeping h = tt
begin-Prepared r payment key scenario (waiting e) h = tt
begin-Prepared r payment key scenario (delayed reply) h = absurd (ground arith)

pub begin-Explained :
    (r : Records) (payment : ProcessPaymentRequest) (key : ℕ) (scenario : Option Scenario)
    (reply : Reply)
    → begin payment key scenario ≡ answered reply
    → Explained r payment reply
unfolding begin
begin-Explained r payment key scenario (http_error code) h = λ q. absurd (ground arith)
begin-Explained r payment key scenario (replied a) h = absurd (ground arith)
begin-Explained r payment key scenario (malformed a) h = absurd (ground arith)

new_answer-reply :
    (scenario : Option Scenario) (a : ProcessPaymentResponse) (reply : Reply)
    → (new_answer scenario a ≡ answers reply) ⊎ (new_answer scenario a ≡ delays reply)
    → (reply ≡ replied a) ⊎ (reply ≡ malformed a)
unfolding new_answer
new_answer-reply scenario a reply h = ground arith

-- The reply about a new record.
made-Explained :
    (r : Records) (payment : ProcessPaymentRequest) (a : ProcessPaymentResponse) (reply : Reply)
    → (reply ≡ replied a) ⊎ (reply ≡ malformed a)
    → Explained
        (update r payment.payment_id (some (record { request = payment; response = a })))
        payment
        reply
made-Explained r payment a reply h = elim h [ inl e ↦ rw e made | inr e ↦ rw e made ]
  where
    made :
        HasResponse
          (update r payment.payment_id (some (record { request = payment; response = a })))
          payment
          a
    made =
        (record { request = payment; response = a }, ground arith, same_request_refl payment, refl)

module _ (x : View) (payment : ProcessPaymentRequest) (scenario : Option Scenario) (entry uuid : ℕ)
    (approves : Bool) (s : Provider) (h : IsRefined x s) where
  abbrev response : ProcessPaymentResponse
  response = record { provider_payment_id = uuid; status = provider_status scenario approves }

  -- What the handler leaves, with the record that it found.
  abbrev left : Option IdempotencyRecord → Provider
  left existing =
      let (result, records) = serve_record payment scenario response existing s.records in
      served payment scenario result
        (record s { records = records; entries = leave payment.payment_id entry s.entries })

  found-IsRefined :
      (existing : IdempotencyRecord)
      → s.records payment.payment_id ≡ some existing
      → IsRefined x (left (some existing))
  unfolding served serve_record
  found-IsRefined existing at = elim (Bool-cases (same_request existing.request payment)) [
    | inl e ↦ rw e (replies h.0 payment (replied existing.response) (existing, at, e, refl), h.1)
    | inr e ↦ rw e (replies h.0 payment (http_error 409) (λ q. (existing, at, e)), h.1)
  ]

  made-IsRefined : s.records payment.payment_id ≡ none → IsRefined x (left none)
  unfolding serve_record
  made-IsRefined free =
      served-IsRefined x payment scenario (new_answer scenario response) _
        (λ reply q.
          made-Explained s.records payment response reply
            (new_answer-reply scenario response reply q))
        (
          creates h.0 payment response free,
          AllPrepared-Extends s.records _ s.tasks
              (Extends-update s.records payment.payment_id _ free) h.1,
        )

  pub process-IsRefined : IsRefined x (process payment scenario entry uuid approves s)
  unfolding process serve
  process-IsRefined = elim (Option-cases (s.records payment.payment_id)) [
    | inl e ↦ rw e (made-IsRefined e)
    | inr (existing, e) ↦ rw e (found-IsRefined existing e)
  ]
