-- ===== src/Services/Relay/Loop.antt =====
-- app/services/outbox_relay.py, `run`.
use async_payment_processing.Prelude.{ℕ, Bool, List, [], ◌∷◌, ◌++◌, ok, err, Result, caught, ◌>>◌}
use async_payment_processing.Schemas.{EventEnvelope}
use async_payment_processing.Models.{Database}
use async_payment_processing.Repositories.Session.{Tx}
use async_payment_processing.Services.Relay.{Broker, process_batch}

-- One turn of the loop: what others commit before it, what its batch meets, and how the wait after it
-- ends, whose TimeoutError is suppressed.
pub record Turn : Type 0 where
  pub before : Database → Database
  pub broker : Broker
  pub tx : Tx
  pub locked : ℕ → Bool
  pub wait : Result (Unit {0})

-- `run`, from turn to turn, until `stop_event` is set after the last one: the messages that the broker
-- has confirmed, how the loop ends, and the database.
unfoldable pub run : ℕ → List Turn → Database → List EventEnvelope × Result (Unit {0}) × Database
run batch_size [] db = ([], ok tt, db)
run batch_size (t ∷ ts) db =
    let (confirmed, result, db') = process_batch t.broker t.tx t.locked batch_size (t.before db) in
    let (rest, end, db'') = run batch_size ts db' in
    elim (caught result >> t.wait) [
      | ok done ↦ (confirmed ++ rest, end, db'')
      | err e ↦ (confirmed, err e, db')
    ]
