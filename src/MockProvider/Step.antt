-- ===== src/MockProvider/Step.antt =====
-- mock-provider/app/main.py: requests that are handled at once on one event loop. Between two awaits a
-- handler runs alone.
use async_payment_processing.Prelude.{ℕ, ◌≡◌, Bool, Option, none, List, [], ◌∷◌, ◌++◌}
use async_payment_processing.MockProvider.Locks.{Locks, enter, leave}
use async_payment_processing.MockProvider.Payments.{
  Scenario, ProcessPaymentRequest, Records, Reply, http_error, Phase, failing, sleeping, waiting,
  delayed, Begun, answered, sleeps, locks, begin, effective_scenario, Served, answers, delays,
  serve,
}

-- A handler of `process_payment` that awaits.
pub record Task : Type 0 where
  pub payment : ProcessPaymentRequest
  pub scenario : Option Scenario
  pub phase : Phase

pub record Answered : Type 0 where
  pub payment : ProcessPaymentRequest
  pub reply : Reply

-- The globals of the module, the handlers, and all that was answered, the latest first.
pub record Provider : Type 0 where
  pub records : Records
  pub entries : Locks
  pub default_scenario : Option Scenario
  pub tasks : List Task
  pub history : List Answered

abbrev pub answer : ProcessPaymentRequest → Reply → Provider → Provider
answer payment reply s = record s {
  history = record { payment = payment; reply = reply } ∷ s.history;
}

abbrev pub await : ProcessPaymentRequest → Option Scenario → Phase → Provider → Provider
await payment scenario phase s = record s {
  tasks = record { payment = payment; scenario = scenario; phase = phase } ∷ s.tasks;
}

-- The entry is taken, and the handler waits for its lock.
unfoldable pub queue : ProcessPaymentRequest → Option Scenario → Provider → Provider
queue payment scenario s =
    let (entry, l) = enter payment.payment_id s.entries in
    await payment scenario (waiting entry) (record s { entries = l })

unfoldable pub begun : ProcessPaymentRequest → Option Scenario → Begun → Provider → Provider
unfolding queue
begun payment scenario (answered reply) s = answer payment reply s
begun payment scenario (sleeps phase) s = await payment scenario phase s
begun payment scenario locks s = queue payment scenario s

-- A request arrives, with its headers.
unfoldable pub arrive : ProcessPaymentRequest → ℕ → Option Scenario → Provider → Provider
unfolding begun
arrive payment idempotency_key header s =
    let scenario = effective_scenario header s.default_scenario in
    begun payment scenario (begin payment idempotency_key scenario) s

unfoldable pub served : ProcessPaymentRequest → Option Scenario → Served → Provider → Provider
served payment scenario (answers reply) s = answer payment reply s
served payment scenario (delays reply) s = await payment scenario (delayed reply) s

-- The lock is got, the record is read or made, and the lock and the entry are given back.
unfoldable pub process :
    ProcessPaymentRequest → Option Scenario → ℕ → ℕ → Bool → Provider → Provider
unfolding served
process payment scenario entry uuid approves s =
    let (result, records) = serve payment scenario uuid approves s.records in
    served payment scenario result
      (record s { records = records; entries = leave payment.payment_id entry s.entries })

-- A handler goes on after its await; it is no longer among the tasks of `s`.
unfoldable pub resume :
    ProcessPaymentRequest → Option Scenario → Phase → ℕ → Bool → Provider → Provider
unfolding process queue
resume payment scenario failing uuid approves s = answer payment (http_error 504) s
resume payment scenario sleeping uuid approves s = queue payment scenario s
resume payment scenario (waiting entry) uuid approves s =
    process payment scenario entry uuid approves s
resume payment scenario (delayed reply) uuid approves s = answer payment reply s

-- A handler is cancelled at its await; the `finally` clause runs if it waits for the lock.
unfoldable pub cancel : ProcessPaymentRequest → Phase → Provider → Provider
cancel payment (waiting entry) s = record s { entries = leave payment.payment_id entry s.entries }
cancel payment _ s = s

abbrev pub without : List Task → List Task → Provider → Provider
without before after s = record s { tasks = before ++ after }

pub data Step (s : Provider) : Provider → Type 0 where
  arrives :
      (payment : ProcessPaymentRequest) (idempotency_key : ℕ) (header : Option Scenario)
      → Step s (arrive payment idempotency_key header s)
  resumes :
      (before after : List Task) (t : Task) (uuid : ℕ) (approves : Bool)
      → s.tasks ≡ before ++ t ∷ after
      → Step s (resume t.payment t.scenario t.phase uuid approves (without before after s))
  cancels :
      (before after : List Task) (t : Task)
      → s.tasks ≡ before ++ t ∷ after
      → Step s (cancel t.payment t.phase (without before after s))
  configures : (scenario : Option Scenario) → Step s (record s { default_scenario = scenario })

pub data Reach (s : Provider) : Provider → Type 0 where
  here : Reach s s
  next : {t u : Provider} → Reach s t → Step t u → Reach s u

-- The start of the process.
abbrev pub started : Provider
started = record {
  records = λ k. none;
  entries = record { table = λ k. none; users = λ e. 0; next = 0 };
  default_scenario = none;
  tasks = [];
  history = [];
}
