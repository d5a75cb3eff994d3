-- ===== src/MockProvider/Guard/Runs.antt =====
-- The lock entries along the runs of the mock provider: mock-provider/app/main.py.
use async_payment_processing.Prelude.{ℕ, ◌≡◌, refl, Bool, false, Option, List, ◌∷◌, ◌++◌, arith}
use async_payment_processing.MockProvider.Payments.{
  Scenario, ProcessPaymentRequest, Phase, failing, sleeping, waiting, delayed, Begun, answered,
  sleeps, locks, begin, effective_scenario, Served, answers, delays,
}
use async_payment_processing.MockProvider.Step.{
  Provider, Task, Step, arrives, resumes, cancels, configures, Reach, here, next, started, arrive,
  begun, queue, served, process, resume, cancel,
}
use async_payment_processing.MockProvider.Guard.{
  is_waiting, IsGuarded, queued-IsGuarded, added-IsGuarded, dropped-IsGuarded, left-IsGuarded,
}

abbrev pub IsSafe : Provider → Type 0
IsSafe s = IsGuarded s.entries s.tasks

queue-IsSafe :
    (payment : ProcessPaymentRequest) (scenario : Option Scenario) (s : Provider)
    → IsSafe s
    → IsSafe (queue payment scenario s)
unfolding queue
queue-IsSafe payment scenario s h = queued-IsGuarded s.entries s.tasks h payment scenario

begin-idle :
    (payment : ProcessPaymentRequest) (key : ℕ) (scenario : Option Scenario) (f : Phase)
    → begin payment key scenario ≡ sleeps f
    → is_waiting f ≡ false
unfolding begin
begin-idle payment key scenario f h = ground arith

begun-IsSafe :
    (payment : ProcessPaymentRequest) (scenario : Option Scenario) (b : Begun) (s : Provider)
    → ((f : Phase) → b ≡ sleeps f → is_waiting f ≡ false)
    → IsSafe s
    → IsSafe (begun payment scenario b s)
unfolding begun
begun-IsSafe payment scenario (answered reply) s idle h = h
begun-IsSafe payment scenario (sleeps f) s idle h =
    added-IsGuarded s.entries s.tasks h
      (record { payment = payment; scenario = scenario; phase = f }) (idle f refl)
begun-IsSafe payment scenario locks s idle h = queue-IsSafe payment scenario s h

served-IsSafe :
    (payment : ProcessPaymentRequest) (scenario : Option Scenario) (x : Served) (s : Provider)
    → IsSafe s
    → IsSafe (served payment scenario x s)
unfolding served
served-IsSafe payment scenario (answers reply) s h = h
served-IsSafe payment scenario (delays reply) s h =
    added-IsGuarded s.entries s.tasks h
      (record { payment = payment; scenario = scenario; phase = delayed reply }) refl

module _ (s : Provider) (before : List Task) (after : List Task) (payment : ProcessPaymentRequest)
    (scenario : Option Scenario) where
  resume-IsSafe :
      (f : Phase) (uuid : ℕ) (approves : Bool)
      → IsGuarded s.entries
          (before ++ record { payment = payment; scenario = scenario; phase = f } ∷ after)
      → IsSafe (resume payment scenario f uuid approves (record s { tasks = before ++ after }))
  unfolding resume process
  resume-IsSafe failing uuid approves h = dropped-IsGuarded s.entries before _ after h refl
  resume-IsSafe sleeping uuid approves h =
      queue-IsSafe payment scenario (record s { tasks = before ++ after })
        (dropped-IsGuarded s.entries before _ after h refl)
  resume-IsSafe (waiting e) uuid approves h =
      served-IsSafe payment scenario _ _ (left-IsGuarded s.entries before _ after h e refl)
  resume-IsSafe (delayed r) uuid approves h = dropped-IsGuarded s.entries before _ after h refl

  cancel-IsSafe :
      (f : Phase)
      → IsGuarded s.entries
          (before ++ record { payment = payment; scenario = scenario; phase = f } ∷ after)
      → IsSafe (cancel payment f (record s { tasks = before ++ after }))
  unfolding cancel
  cancel-IsSafe failing h = dropped-IsGuarded s.entries before _ after h refl
  cancel-IsSafe sleeping h = dropped-IsGuarded s.entries before _ after h refl
  cancel-IsSafe (waiting e) h = left-IsGuarded s.entries before _ after h e refl
  cancel-IsSafe (delayed r) h = dropped-IsGuarded s.entries before _ after h refl

Step-IsSafe : {s t : Provider} → Step s t → IsSafe s → IsSafe t
unfolding arrive
Step-IsSafe {s} (arrives payment key header) h =
    let scenario = effective_scenario header s.default_scenario in
    begun-IsSafe payment scenario (begin payment key scenario) s (begin-idle payment key scenario) h
Step-IsSafe {s} (resumes before after t uuid approves e) h =
    resume-IsSafe s before after t.payment t.scenario t.phase uuid approves (rw e at h)
Step-IsSafe {s} (cancels before after t e) h =
    cancel-IsSafe s before after t.payment t.scenario t.phase (rw e at h)
Step-IsSafe (configures scenario) h = h

-- In every state that requests, wakings and cancellations of any number of handlers reach, in any order,
-- `_idempotency_locks` has an entry for a key exactly while some handler waits for its lock, its
-- count of users is the number of these handlers, no two keys share an entry, and each handler waits
-- at the entry of the table; so that no two handlers of one key go by different locks.
pub Reach-IsGuarded : {s : Provider} → Reach started s → IsGuarded s.entries s.tasks
Reach-IsGuarded here = record {
  counted = record { held = λ k e q. cc; free = λ k q. refl; own = λ j k e p q. cc };
  placed = tt;
}
Reach-IsGuarded (next r st) = Step-IsSafe st (Reach-IsGuarded r)
