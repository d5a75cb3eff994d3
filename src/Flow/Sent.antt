-- ===== src/Flow/Sent.antt =====
-- The webhook processor on a row whose webhook was sent and marked: app/worker/webhook_processor.py.
use async_payment_processing.Prelude.{
  ℕ, ◌≡◌, true, false, none, some, arith, is_some, ok, refl, if◌then◌else◌, err, database_error,
}
use async_payment_processing.Schemas.{EventEnvelope, EventType, is_terminal}
use async_payment_processing.Models.{Payment, Database}
use async_payment_processing.Models.Rows.{find, find-replace, find-id}
use async_payment_processing.Repositories.Payments.{update, clashes_other}
use async_payment_processing.Repositories.Session.{Tx, commit, save, loads}
use async_payment_processing.Worker.Webhook.{
  Env, WebhookDelivery, load_delivery, mark_sent, process, after_delivery,
}
use async_payment_processing.Flow.{IsSound}
use async_payment_processing.Flow.Ready.{load_delivery-ready}

mark_sent-found :
    (tx : Tx) (k event_id : ℕ) (db : Database) (p : Payment)
    → find k db.payments ≡ some p
    → is_terminal p.status ≡ true
    → p.webhook_sent_at ≡ none
    → p.webhook_event_id ≡ some event_id
    → tx.alive ≡ true
    → clashes_other (record p { webhook_sent_at = some tx.now }) db.payments ≡ false
    → let (result, db') = mark_sent tx k event_id db in
      (result ≡ ok tt)
      × (find k db'.payments
          ≡ some (record p { webhook_sent_at = some tx.now; updated_at = tx.db_now }))
unfolding mark_sent save update commit
mark_sent-found tx k event_id db p f final unsent named up free =
    let same = find-id k db.payments p f in
    (
      ground arith,
      ground (
        arith,
        find-replace k (record p { webhook_sent_at = some tx.now; updated_at = tx.db_now })
            db.payments,
      ),
    )

-- An event whose payment has its webhook sent already is acknowledged, with nothing sent or changed.
process-sent :
    (env : Env) (event : EventEnvelope) (db : Database) (p : Payment)
    → event.event_type ≡ EventType.webhook_delivery_requested
    → find event.payment_id db.payments ≡ some p
    → is_some p.webhook_sent_at ≡ true
    → process env event db ≡ ((if env.reads then ok tt else err database_error), db)
unfolding process load_delivery loads
process-sent env event db p t f sent = ground arith

process-marks :
    (env : Env) (event : EventEnvelope) (db : Database) (d : WebhookDelivery)
    → event.event_type ≡ EventType.webhook_delivery_requested
    → load_delivery event db ≡ ok (some d)
    → env.reads ≡ true
    → env.deliver d event.event_id event.attempt ≡ ok tt
    → process env event db ≡ mark_sent env.tx event.payment_id event.event_id (env.others db)
unfolding process after_delivery load_delivery mark_sent loads
process-marks env event db d t ready up sends = rw (t, up, ready, sends)

-- On a sound database, if the target takes the webhook of a payment with a final status that was not
-- sent, the event is the one stored for it, and the row is unchanged when the delivery ends and
-- can be read and written (the server is there and no unique column clashes), then the event ends well
-- with the date of sending stored, and every later run of the same event sends and changes nothing: it
-- ends well, or in a database error if its read fails.
pub process-sends_once :
    (m : ℕ) (env : Env) (event : EventEnvelope) (db : Database) (p : Payment)
    → IsSound m db
    → event.event_type ≡ EventType.webhook_delivery_requested
    → find event.payment_id db.payments ≡ some p
    → is_terminal p.status ≡ true
    → p.webhook_sent_at ≡ none
    → p.webhook_event_id ≡ some event.event_id
    → ((d : WebhookDelivery) → env.deliver d event.event_id event.attempt ≡ ok tt)
    → find event.payment_id (env.others db).payments ≡ some p
    → env.reads ≡ true
    → env.tx.alive ≡ true
    → clashes_other (record p { webhook_sent_at = some env.tx.now }) (env.others db).payments
      ≡ false
    → let (result, db') = process env event db in
      (result ≡ ok tt)
      × (find event.payment_id db'.payments
          ≡ some (record p { webhook_sent_at = some env.tx.now; updated_at = env.tx.db_now }))
      × ((later : Env)
          → process later event db' ≡ ((if later.reads then ok tt else err database_error), db'))
process-sends_once m env event db p h t f final unsent named takes still reads up free =
    let (d, ready, url, valid, status, amount, id) =
      load_delivery-ready m event db p h f final unsent named in
    let (done, found) =
      mark_sent-found env.tx event.payment_id event.event_id (env.others db) p still final unsent
        named up free in
    rw (process-marks env event db d t ready reads (takes d)) (
      done,
      found,
      λ later.
          process-sent later event _
            (record p { webhook_sent_at = some env.tx.now; updated_at = env.tx.db_now }) t found
            refl,
    )
