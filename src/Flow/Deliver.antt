-- ===== src/Flow/Deliver.antt =====
-- Delivering webhooks on a sound database: app/worker/webhook_processor.py.
use async_payment_processing.Prelude.{
  ℕ, ◌≡◌, ◌⊎◌, inl, inr, true, some, List, arith, is_some, Option-cases, equals_some, Bool-cases,
  ok, err, Result, Result-cases, webhook_retryable, false,
}
use async_payment_processing.Schemas.{EventEnvelope, EventType-cases, is_terminal}
use async_payment_processing.Models.{Payment, OutboxEvent, Database}
use async_payment_processing.Models.Rows.{find, find_self}
use async_payment_processing.Repositories.Session.{Tx, commit, save, loads}
use async_payment_processing.Worker.Webhook.{Env, load_delivery, mark_sent, after_delivery, process}
use async_payment_processing.Flow.{IsConsistent, IsSound}
use async_payment_processing.Flow.Rows.{commit-IsSound, replace-IsSound, save-eq}

sent-IsConsistent :
    (m now db_now : ℕ) (es : List OutboxEvent) (p : Payment)
    → is_terminal p.status ≡ true
    → IsConsistent m es p
    → IsConsistent m es (record p { webhook_sent_at = some now; updated_at = db_now })
sent-IsConsistent m now db_now es p final h = ground arith

-- Either nothing is written, or the found row is, which has its final status.
pub mark_sent-db :
    (tx : Tx) (k event_id : ℕ) (db : Database)
    → ((mark_sent tx k event_id db).1 ≡ db)
      ⊎ ((p : Payment) × (find k db.payments ≡ some p)
          × (is_some p.webhook_sent_at ≡ false)
          × (is_terminal p.status ≡ true)
          × ((mark_sent tx k event_id db).1
              ≡ (commit {0} tx tt (save tx (record p { webhook_sent_at = some tx.now }) db) db).1))
unfolding mark_sent
mark_sent-db tx k event_id db = elim (Option-cases (find k db.payments)) [
  | inl e ↦ inl (rw e)
  | inr (p, e) ↦ elim (Bool-cases (is_some p.webhook_sent_at)) [
    | inl a ↦ inl (rw (e, a))
    | inr a ↦ elim (Bool-cases (equals_some p.webhook_event_id event_id)) [
      | inr b ↦ inl (rw (e, a, b))
      | inl b ↦ elim (Bool-cases (is_terminal p.status)) [
        | inr c ↦ inl (rw (e, a, b, c))
        | inl c ↦ inr (p, e, a, c, rw (e, a, b, c))
      ]
    ]
  ]
]

pub mark_sent-IsSound :
    (m : ℕ) (tx : Tx) (k event_id : ℕ) (db : Database)
    → IsSound m db
    → IsSound m (mark_sent tx k event_id db).1
mark_sent-IsSound m tx k event_id db h = elim (mark_sent-db tx k event_id db) [
  | inl same ↦ rw same h
  | inr (p, e, unsent, final, same) ↦ rw same (
      commit-IsSound m tx tt (save tx (record p { webhook_sent_at = some tx.now }) db) db
        (λ changed c. rw (save-eq tx _ db changed c) (
          replace-IsSound m db p _ (find_self k db.payments p e)
            (sent-IsConsistent m tx.now tx.db_now db.outbox p final (h.rows k p e)) h))
        h)
]

after_delivery-IsSound :
    (m : ℕ) (tx : Tx) (event : EventEnvelope) (r : Result (Unit {0})) (db : Database)
    → IsSound m db
    → IsSound m (after_delivery tx event r db).1
unfolding after_delivery
after_delivery-IsSound m tx event (ok a) db h =
    mark_sent-IsSound m tx event.payment_id event.event_id db h
after_delivery-IsSound m tx event (err webhook_retryable) db h = h
after_delivery-IsSound m tx event (err e) db h = h

process-db :
    (env : Env) (event : EventEnvelope) (db : Database)
    → ((process env event db).1 ≡ db)
      ⊎ ((r : Result (Unit {0})) × ((process env event db).1
            ≡ (after_delivery env.tx event r (env.others db)).1))
unfolding process load_delivery
process-db env event db = elim (EventType-cases event.event_type) [
  | inl t ↦ inl (rw t)
  | inr t ↦ elim (Result-cases (loads env.reads (load_delivery event db))) [
    | inl (e, q) ↦ inl (rw (t, q))
    | inr (delivery, q) ↦ elim (Option-cases delivery) [
      | inl n ↦ inl (rw (t, q, n))
      | inr (d, n) ↦ inr (env.deliver d event.event_id event.attempt, rw (t, q, n))
    ]
  ]
]

-- Delivering a webhook keeps the database sound, whatever the target answers, if what others commit
-- during the delivery keeps it sound.
pub deliver-IsSound :
    (m : ℕ) (env : Env) (event : EventEnvelope) (db : Database)
    → ((t : Database) → IsSound m t → IsSound m (env.others t))
    → IsSound m db
    → IsSound m (process env event db).1
deliver-IsSound m env event db keep h = elim (process-db env event db) [
  | inl same ↦ rw same h
  | inr (r, same) ↦ rw same (after_delivery-IsSound m env.tx event r (env.others db) (keep db h))
]
