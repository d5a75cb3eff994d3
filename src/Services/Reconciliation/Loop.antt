-- ===== src/Services/Reconciliation/Loop.antt =====
-- app/services/payment_reconciliation.py, `run`.
use async_payment_processing.Prelude.{ℕ, Bool, List, [], ◌∷◌, ok, err, Result, caught, ◌>>◌}
use async_payment_processing.Breaker.{Breaker}
use async_payment_processing.Models.{Database}
use async_payment_processing.Repositories.Session.{Tx}
use async_payment_processing.Services.Reconciliation.{Config, Env, process_batch}

-- One turn of the loop: what others do before it, what its batch meets, and how the wait after it ends,
-- whose TimeoutError is suppressed.
pub record Turn : Type 0 where
  pub before : Database → Database
  pub other_calls : Breaker → Breaker
  pub tx : Tx
  pub locked : ℕ → Bool
  pub env : ℕ → Env
  pub wait : Result (Unit {0})

-- `run`, from turn to turn, until `stop_event` is set after the last one: how the loop ends, the
-- database and the breaker.
unfoldable pub run :
    Config → List Turn → Database → Breaker → Result (Unit {0}) × Database × Breaker
run c [] db b = (ok tt, db, b)
run c (t ∷ ts) db b =
    let (result, db', b') = process_batch c t.tx t.locked t.env (t.before db) (t.other_calls b) in
    let rest = run c ts db' b' in
    elim (caught result >> t.wait) [ ok done ↦ rest | err e ↦ (err e, db', b') ]
