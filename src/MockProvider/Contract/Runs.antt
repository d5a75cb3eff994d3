-- ===== src/MockProvider/Contract/Runs.antt =====
-- The runs of the mock provider and those of the abstract service: mock-provider/app/main.py.
use async_payment_processing.Prelude.{ℕ, Bool, Option, ◌++◌, arith, All}
use async_payment_processing.MockProvider.Payments.{
  Scenario, ProcessPaymentRequest, http_error, Phase, failing, sleeping, waiting, delayed, begin,
  effective_scenario,
}
use async_payment_processing.MockProvider.Step.{
  Provider, Step, arrives, resumes, cancels, configures, Reach, here, next, started, arrive, queue,
  resume, cancel,
}
use async_payment_processing.MockProvider.Guard.{All-without}
use async_payment_processing.MockProvider.Contract.{
  Explained, View, view, Service, silent, replies, Service-explains,
}
use async_payment_processing.MockProvider.Contract.Refines.{
  Prepared, IsRefined, begun-IsRefined, begin-Prepared, begin-Explained, process-IsRefined,
}

module _ (x : View) where
  resume-IsRefined :
      (payment : ProcessPaymentRequest) (scenario : Option Scenario) (f : Phase) (uuid : ℕ)
      (approves : Bool) (s : Provider)
      → Prepared s.records payment f
      → IsRefined x s
      → IsRefined x (resume payment scenario f uuid approves s)
  unfolding resume queue
  resume-IsRefined payment scenario failing uuid approves s p h =
      (replies h.0 payment (http_error 504) (λ q. absurd (omega arith)), h.1)
  resume-IsRefined payment scenario sleeping uuid approves s p h = (h.0, (tt, h.1))
  resume-IsRefined payment scenario (waiting entry) uuid approves s p h =
      process-IsRefined x payment scenario entry uuid approves s h
  resume-IsRefined payment scenario (delayed reply) uuid approves s p h =
      (replies h.0 payment reply p, h.1)

  cancel-IsRefined :
      (payment : ProcessPaymentRequest) (f : Phase) (s : Provider)
      → IsRefined x s
      → IsRefined x (cancel payment f s)
  unfolding cancel
  cancel-IsRefined payment failing s h = h
  cancel-IsRefined payment sleeping s h = h
  cancel-IsRefined payment (waiting entry) s h = h
  cancel-IsRefined payment (delayed reply) s h = h

  pub Step-IsRefined : {s t : Provider} → Step s t → IsRefined x s → IsRefined x t
  unfolding arrive
  Step-IsRefined {s} (arrives payment key header) h =
      let scenario = effective_scenario header s.default_scenario in
      begun-IsRefined x payment scenario (begin payment key scenario) s
        (begin-Prepared s.records payment key scenario)
        (begin-Explained s.records payment key scenario) h
  Step-IsRefined {s} (resumes before after t uuid approves e) h =
      let (own, others) =
        All-without (λ t. Prepared s.records t.payment t.phase) before t after (rw e at (h.1)) in
      resume-IsRefined t.payment t.scenario t.phase uuid approves
        (record s { tasks = before ++ after }) own (h.0, others)
  Step-IsRefined {s} (cancels before after t e) h =
      let (own, others) =
        All-without (λ t. Prepared s.records t.payment t.phase) before t after (rw e at (h.1)) in
      cancel-IsRefined t.payment t.phase (record s { tasks = before ++ after }) (h.0, others)
  Step-IsRefined (configures scenario) h = h

pub Reach-IsRefined : {s : Provider} → Reach started s → IsRefined (view started) s
Reach-IsRefined here = (silent, tt)
Reach-IsRefined (next r st) = Step-IsRefined (view started) st (Reach-IsRefined r)

-- Every run of the mock provider is, in its records and its answers, a run of the abstract service, which
-- makes one record for each key, where there is none, and replies only what its records give reason
-- for. So of all that was ever answered, each response is that of the record of its key, made for
-- the same payment, and each conflict is about a record of another payment: answers for one key
-- never differ.
pub Reach-refines :
    {s : Provider}
    → Reach started s
    → Service (view started) (view s) × All (λ a. Explained s.records a.payment a.reply) s.history
Reach-refines r =
    let (service, prepared) = Reach-IsRefined r in (service, Service-explains service tt)
