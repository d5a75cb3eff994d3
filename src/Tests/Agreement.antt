-- ===== src/Tests/Agreement.antt =====
-- The service and the mock provider together, and the loop of the relay.
use async_payment_processing.Prelude.{
  ℕ, ◌≡◌, ◌≤◌, refl, false, true, [], ◌∷◌, arith, ok, err, unexpected, All, Option, inl, inr, none,
  if◌then◌else◌, ◌==◌, Bool-cases, ==_iff,
}
use async_payment_processing.Breaker
use async_payment_processing.Breaker.{Breaker}
use async_payment_processing.Schemas.{ProviderPaymentRequest}
use async_payment_processing.Clients.Provider.{response, read_timeout, lookup_result}
use async_payment_processing.Clients.Provider.Loop.{Round, process_payment}
use async_payment_processing.Services.Reconciliation
use async_payment_processing.Worker.Payment
use async_payment_processing.Worker.Payment.{process}
use async_payment_processing.MockProvider.Payments.{look_up}
use async_payment_processing.Flow.Honest.Mock.{
  AgreesWith, AsksMock, AllLookUp, processed-Agrees, reconciled-Agrees,
}
use async_payment_processing.Flow.WithMock.{IsAnswer, http_response}
use async_payment_processing.Models.Rows.{find}
use async_payment_processing.Repositories.Payments.{add}
use async_payment_processing.Repositories.Outbox.{add_event}
use async_payment_processing.Repositories.Session.{commit}
use async_payment_processing.Services.Create.{insert_both}
use async_payment_processing.Services.Relay.Loop.{Turn, run}
use async_payment_processing.Services.Relay.Marks.{waiting, waiting_as, confirmed_as}
use async_payment_processing.Services.Relay.Drained.{IsQuiet, HasGood, skip, good, enough}
use async_payment_processing.MockProvider.Payments.{Scenario}
use async_payment_processing.MockProvider.Step.{here, arrives, resumes, started}
use async_payment_processing.Flow.Reach.{insert, apply, empty}
use async_payment_processing.Flow.Agreement
use async_payment_processing.Flow.Agreement.{
  World, Move, Leads, local, remote, Agrees, Leads-Agrees,
}
use async_payment_processing.Flow.WithMock.{mock_provider, HasRecord}
use async_payment_processing.Flow.Envelopes.{Reach-delivers}
use async_payment_processing.Tests.Samples.{
  db_unknown, process_event, config, order, order-valid, tx_at, answer, db_pending, db_final,
  pending-Reach,
}
use async_payment_processing.Tests.MockProvider.{
  request, state_waiting, waiting-Reach, state_served, served-Reach, task_waiting, waiting_tasks,
  parsers, client, rounds, met, met_answers, served_record,
}

abbrev empty_world : World config mock_provider
empty_world = record { db = empty; provider = (started, here) }

abbrev final_world : World config mock_provider
final_world = record { db = db_final; provider = (state_served, served-Reach) }

-- The payment is stored, the provider gets the request and answers it, and the answer is written.
pending-Leads : Leads config mock_provider empty_world (record empty_world { db = db_pending })
unfolding commit insert_both add add_event find
pending-Leads =
    Agreement.next Agreement.here
      (local (insert (tx_at 1) 50 order "order-123" "abc" order-valid) tt)

waiting-Leads :
    Leads config mock_provider empty_world
      (record { db = db_pending; provider = (state_waiting, waiting-Reach) })
waiting-Leads =
    Agreement.next pending-Leads (remote (arrives request 101 (Option.some Scenario.approved)))

served-Leads :
    Leads config mock_provider empty_world
      (record { db = db_pending; provider = (state_served, served-Reach) })
served-Leads =
    Agreement.next waiting-Leads (remote (resumes [] [] task_waiting 7 true waiting_tasks))

final-Leads : Leads config mock_provider empty_world final_world
final-Leads = Agreement.next served-Leads (local (apply (tx_at 2) 101 answer) served_record)

Leads-Agrees_example : Agrees (λ k r. HasRecord state_served.records k r) db_final
Leads-Agrees_example = Leads-Agrees config mock_provider final-Leads

-- A turn in which the broker fails, and one in which it does not.
abbrev broken : Turn
broken = record {
  before = λ db. db;
  broker = λ m. err unexpected;
  tx = tx_at 2;
  locked = λ k. false;
  wait = ok tt;
}

abbrev working : Turn
working = record broken { broker = λ m. ok tt }

two-HasGood : HasGood 1 (broken ∷ working ∷ [])
two-HasGood = skip (good (record { alive = refl; confirms = λ m. refl; free = refl }) enough)

two-IsQuiet : All IsQuiet (broken ∷ working ∷ [])
two-IsQuiet = ((λ db. refl, λ m x e. ground arith, refl), ((λ db. refl, λ m x e. cc, refl), tt))

Reach-delivers_example :
    let (confirmed, result, db') = run 20 (broken ∷ working ∷ []) db_pending in
    (result ≡ ok tt)
    × (waiting db'.outbox ≡ 0)
    × ((k : ℕ) → 1 ≤ waiting_as k db_pending.outbox → 1 ≤ confirmed_as k confirmed)
Reach-delivers_example =
    Reach-delivers {c = config} {db = db_pending} 20 (broken ∷ working ∷ []) pending-Reach
      (omega arith) two-IsQuiet two-HasGood

-- About any other payment the client gets no answer.
abbrev rounds_about : ProviderPaymentRequest → ℕ → Round
rounds_about d attempt = record (rounds attempt) {
  post = λ t. if d.payment_id == 101 then met attempt else read_timeout;
}

-- The processor sends the first POST for nothing, and gets the response to the second one.
abbrev asking : Payment.Env
asking = record {
  started = 2;
  ended = 3;
  provider = λ d. (process_payment parsers client d (rounds_about d) 10).result;
  others = λ db. db;
  other_calls = λ b. b;
  tx = tx_at 3;
  reads = true;
}

abbrev closed : Breaker
closed = record {
  failure_threshold = 5;
  recovery_timeout = 15;
  state = Breaker.State.closed;
  failure_count = 0;
  opened_at = none;
}

about_answers :
    (d : ProviderPaymentRequest) (attempt timeout : ℕ)
    → IsAnswer state_served d.payment_id ((rounds_about d attempt).post timeout)
about_answers d attempt timeout = elim (Bool-cases (d.payment_id == 101)) [
  | inl e ↦
      let same : d.payment_id ≡ 101 = (==_iff d.payment_id 101).0 e in
      rw (e, same) (met_answers attempt timeout)
  | inr e ↦ rw e (λ x q. cc)
]

asking-AsksMock : AsksMock state_served asking
asking-AsksMock = record {
  parsers = parsers;
  config = client;
  rounds = rounds_about;
  started_at = 10;
  asks = λ d. refl;
  answers = about_answers;
}

pending-AgreesWith : AgreesWith state_served db_pending
unfolding find
pending-AgreesWith k p f final = ground arith

processed-Agrees_example :
    AgreesWith state_served (process asking process_event db_pending closed).1
processed-Agrees_example =
    processed-Agrees config state_served asking process_event db_pending closed served-Reach
      asking-AsksMock (λ t h. h) pending-AgreesWith

-- A lookup of the payment is answered from the record.
abbrev lookup_env : ℕ → Reconciliation.Env
lookup_env k = record {
  before = λ db. db;
  renew_tx = tx_at 41;
  started = 41;
  ended = 42;
  lookup = lookup_result (response (http_response (look_up k state_served.records)));
  others = λ db. db;
  other_calls = λ b. b;
  persist_tx = tx_at 43;
  processed_at = 43;
}

abbrev lookup_turn : Reconciliation.Loop.Turn
lookup_turn = record {
  before = λ db. db;
  other_calls = λ b. b;
  tx = tx_at 40;
  locked = λ k. false;
  env = lookup_env;
  wait = ok tt;
}

turn-AllLookUp : AllLookUp state_served (lookup_turn ∷ [])
turn-AllLookUp = (
  (
    λ t h. h,
    λ k. (λ t h. h, λ t h. h, (_, refl, λ x q. (state_served.records, λ j y e. e, ground arith))),
  ),
  tt,
)

unknown-AgreesWith : AgreesWith state_served db_unknown
unfolding find
unknown-AgreesWith k p f final = ground arith

reconciled-Agrees_example :
    AgreesWith state_served (Reconciliation.Loop.run config (lookup_turn ∷ []) db_unknown closed).1
reconciled-Agrees_example =
    reconciled-Agrees config state_served (lookup_turn ∷ []) db_unknown closed turn-AllLookUp
      unknown-AgreesWith
