-- ===== src/Tests/MockProvider.antt =====
-- One payment at the mock provider.
use async_payment_processing.Prelude.{
  ◌≡◌, refl, none, some, [], ◌∷◌, true, ok, All, inl, if◌then◌else◌, ◌==◌, ℕ, ◌+◌, ◌*◌, inr, arith,
  Bool-cases,
}
use async_payment_processing.Schemas.{Currency, ProviderPaymentRequest}
use async_payment_processing.Clients.Provider.{
  Config, Outcome, response, connect_error, parse_success_response,
}
use async_payment_processing.Clients.Provider.Loop.{
  Round, process_payment, rounds_from, one_round, after_post, after_response, retry_or_fail,
  wait_before_retry, sleep_then,
}
use async_payment_processing.Clients.Provider.RetryAfter.{Parsers}
use async_payment_processing.MockProvider.Locks.{enter}
use async_payment_processing.MockProvider.Payments.{
  Scenario, ProcessPaymentRequest, replied, waiting, begin, serve, serve_record, new_answer,
}
use async_payment_processing.MockProvider.Step.{
  Provider, Task, Reach, here, next, arrives, resumes, started, arrive, begun, queue, resume,
  process, served, without,
}
use async_payment_processing.MockProvider.Guard.{IsGuarded}
use async_payment_processing.MockProvider.Guard.Runs.{Reach-IsGuarded}
use async_payment_processing.MockProvider.Contract.{Explained, Service, view}
use async_payment_processing.MockProvider.Contract.Runs.{Reach-refines}
use async_payment_processing.Flow.WithMock.{HasRecord, http_response, IsAnswer}
use async_payment_processing.Tests.Samples.{answer}

abbrev pub request : ProcessPaymentRequest
request = record { payment_id = 101; amount = 150050; currency = Currency.rub }

-- The handler waits for the lock, and then it has made the record.
abbrev pub state_waiting : Provider
state_waiting = arrive request 101 (some Scenario.approved) started

abbrev pub task_waiting : Task
task_waiting = record { payment = request; scenario = some Scenario.approved; phase = waiting 0 }

abbrev pub state_served : Provider
state_served =
    resume request (some Scenario.approved) (waiting 0) 7 true (without [] [] state_waiting)

pub waiting-Reach : Reach started state_waiting
waiting-Reach = next here (arrives request 101 (some Scenario.approved))

pub waiting_tasks : state_waiting.tasks ≡ task_waiting ∷ []
unfolding arrive begin begun queue enter
waiting_tasks = refl

pub served-Reach : Reach started state_served
served-Reach = next waiting-Reach (resumes [] [] task_waiting 7 true waiting_tasks)

pub served_record : HasRecord state_served.records 101 answer
unfolding resume process serve serve_record arrive begin new_answer
served_record = (_, refl, refl)

served_history :
    state_served.history
    ≡ record {
      payment = request;
      reply = replied (record { provider_payment_id = 7; status = answer.status });
    }
      ∷ []
unfolding resume process serve serve_record new_answer served arrive begin begun queue
served_history = refl

Reach-IsGuarded_example : IsGuarded state_waiting.entries state_waiting.tasks
Reach-IsGuarded_example = Reach-IsGuarded waiting-Reach

Reach-refines_example :
    Service (view started) (view state_served)
    × All (λ a. Explained state_served.records a.payment a.reply) state_served.history
Reach-refines_example = Reach-refines served-Reach

-- The first POST finds no connection, and the second one gets the response.
abbrev pub met : ℕ → Outcome
met attempt =
    if attempt == 1
    then connect_error
    else response
        (http_response (replied (record { provider_payment_id = 7; status = answer.status })))

abbrev pub rounds : ℕ → Round
rounds attempt = record {
  post_clock = 10 * attempt;
  post = λ t. met attempt;
  wall_clock = 0;
  wait_clock = 10 * attempt + 1;
  uniform = λ interval. interval;
}

abbrev pub client : Config
client = record {
  request_timeout = 5;
  max_attempts = 3;
  retry_base_delay = 1;
  retry_max_delay = 4;
  retry_total_timeout = 20;
}

abbrev pub parsers : Parsers
parsers = record { float = λ s. none; date = λ s. none }

abbrev provider_request : ProviderPaymentRequest
provider_request = record { payment_id = 101; amount = 150050; currency = Currency.rub }

answered_run : (process_payment parsers client provider_request rounds 10).result ≡ ok answer
unfolding process_payment rounds_from one_round after_post after_response parse_success_response
    retry_or_fail wait_before_retry sleep_then
answered_run = refl

pub met_answers : (attempt timeout : ℕ) → IsAnswer state_served 101 ((rounds attempt).post timeout)
met_answers attempt timeout = elim (Bool-cases (attempt == 1)) [
  | inl e ↦ rw e (λ x q. cc)
  | inr e ↦ rw e (λ x q. ([], _, [], served_history, refl, ground arith))
]
