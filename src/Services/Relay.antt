-- ===== src/Services/Relay.antt =====
-- app/services/outbox_relay.py, class `OutboxRelay`.
pub mod Delivery
pub mod Loop
pub mod Marks
pub mod Turns
pub mod Drained
use async_payment_processing.Prelude.{ℕ, Bool, List, [], ◌∷◌, ok, err, length, Error, Result, ◌>>=◌}
use async_payment_processing.Schemas.{EventEnvelope, validate_envelope}
use async_payment_processing.Models.{OutboxEvent, Database}
use async_payment_processing.Repositories.Outbox.{get_unpublished_batch, mark_published}
use async_payment_processing.Repositories.Session.{Tx, commit}

-- What the broker confirms of each message.
abbrev pub Broker : Type 0
Broker = EventEnvelope → Result (Unit {0})

-- The loop of `process_batch`: the messages that the broker has confirmed, and the rows, marked as far
-- as the loop came.
pub record Progress : Type 0 where
  pub confirmed : List EventEnvelope
  pub rows : Result (List OutboxEvent)

abbrev published : EventEnvelope → Progress → Progress
published m p = record { confirmed = m ∷ p.confirmed; rows = p.rows }

abbrev failed : Error → Progress
failed e = record { confirmed = []; rows = err e }

abbrev sent : EventEnvelope → Result (Unit {0}) → Progress → Progress
sent m (err e) rest = failed e
sent m (ok done) rest = published m rest

abbrev validated : Broker → Result EventEnvelope → Progress → Progress
validated broker (err e) rest = failed e
validated broker (ok m) rest = sent m (broker m) rest

unfoldable pub publish_all : Broker → ℕ → List OutboxEvent → List OutboxEvent → Progress
publish_all broker now [] rows = record { confirmed = []; rows = ok rows }
publish_all broker now (e ∷ es) rows =
    let rest = publish_all broker now es (mark_published now e.id rows) in
    validated broker (validate_envelope e.payload) rest

unfoldable pub relay :
    Broker → Tx → Result (List OutboxEvent) → Database → List EventEnvelope × Result ℕ × Database
unfolding publish_all commit
relay broker tx (err e) db = ([], err e, db)
relay broker tx (ok batch) db =
    let p = publish_all broker tx.now batch db.outbox in
    let (result, db') =
      commit tx (length batch) (p.rows >>= λ rows. ok (record db { outbox = rows })) db in
    (p.confirmed, result, db')

-- `process_batch`: the messages that the broker has confirmed, the number of events or the
-- exception, and the database.
unfoldable pub process_batch :
    Broker → Tx → (ℕ → Bool) → ℕ → Database → List EventEnvelope × Result ℕ × Database
unfolding relay
process_batch broker tx locked batch_size db =
    relay broker tx (get_unpublished_batch locked batch_size db.outbox) db
