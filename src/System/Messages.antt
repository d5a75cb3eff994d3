-- ===== src/System/Messages.antt =====
-- The events under publications and settlements: app/integrations/rabbitmq and
-- app/worker/consumer.py.
use async_payment_processing.Prelude.{
  ℕ, ◌+◌, ◌≡◌, inl, inr, Bool, true, some, List, ◌∷◌, arith, if◌then◌else◌, Bool-cases, tally, ◌≤◌,
  sym, ◌⊎◌, leb, tally-le,
}
use async_payment_processing.Schemas.{EventEnvelope}
use async_payment_processing.Models.{OutboxEvent, Database}
use async_payment_processing.Repositories.Outbox.Found.{find_event}
use async_payment_processing.Worker.Publisher.{Message}
use async_payment_processing.Flow.Handled.{IsHandled, IsHandled-type}
use async_payment_processing.System.Accounted.{IsAccounted, IsKept}
use async_payment_processing.System.Known.{is_known, is_strange, is_known-find_event}
use async_payment_processing.System.Own.{IsOwn-known, IsOwn-valid}
use async_payment_processing.System.Step.{IsOwn, is_attempt, is_attempt_from}

pub publishes-IsAccounted :
    (log held held' : List EventEnvelope) (db : Database) (m : Message)
    → ((test : EventEnvelope → Bool)
        → tally test held' ≡ (if test m.body then 1 else 0) + tally test held)
    → IsOwn db.outbox log m
    → IsAccounted log held db
    → IsAccounted (m.body ∷ log) held' db
publishes-IsAccounted log held held' db m adds own h = record {
  envelopes = h.envelopes;
  found = h.found;
  known = ground (arith, h.known, IsOwn-known log held db m h own);
  valid = ground (arith, h.valid, IsOwn-valid log held db m h own);
  arrived = λ test. omega (arith, adds test, h.arrived test);
  marked = λ k e f. elim (h.marked k e f) [ inl waits ↦ inl waits | inr once ↦ inr (ground arith) ];
  kept = keeps;
}
  where
    keeps : IsKept (m.body ∷ log) held' db
    keeps k n e f l = elim (Bool-cases (is_attempt k n m.body)) [
      | inl own ↦ inl (ground (arith, adds (is_attempt_from k n)))
      | inr apart ↦ elim (h.kept k n e f (let l' = rw apart at l in omega arith)) [
        | inr done ↦ inr done
        | inl there ↦ inl (omega (arith, adds (is_attempt_from k n)))
      ]
    ]

-- The broker moves messages without a loss.
pub moves-IsAccounted :
    (log held held' : List EventEnvelope) (db : Database)
    → ((test : EventEnvelope → Bool) → tally test held' ≡ tally test held)
    → IsAccounted log held db
    → IsAccounted log held' db
moves-IsAccounted log held held' db same h = record {
  envelopes = h.envelopes;
  found = h.found;
  known = h.known;
  valid = h.valid;
  arrived = λ test. rw (same test) (h.arrived test);
  marked = h.marked;
  kept = λ k n e f l. rw (same (is_attempt_from k n)) (h.kept k n e f l);
}

-- An acknowledged message is done with: its next attempt was published, or its event is handled.
pub acks-IsAccounted :
    (log held held' : List EventEnvelope) (db : Database) (event : EventEnvelope)
    → ((test : EventEnvelope → Bool)
        → tally test held ≡ (if test event then 1 else 0) + tally test held')
    → (1 ≤ tally (is_attempt event.event_id (event.attempt + 1)) log)
      ⊎ IsHandled event.event_type event.payment_id db
    → IsAccounted log held db
    → IsAccounted log held' db
acks-IsAccounted log held held' db event removes done h = record {
  envelopes = h.envelopes;
  found = h.found;
  known = h.known;
  valid = h.valid;
  arrived = λ test. omega (arith, removes test, h.arrived test);
  marked = h.marked;
  kept = keeps;
}
  where
    event-known : is_known db.outbox event ≡ true
    event-known = elim (Bool-cases (is_known db.outbox event)) [
      | inl t ↦ t
      | inr t ↦
          let one = rw t at (removes (is_strange db.outbox)) in
          absurd (omega (arith, h.known, h.arrived (is_strange db.outbox), one))
    ]

    replaced :
        (k n : ℕ) (e : OutboxEvent)
        → find_event k db.outbox ≡ some e
        → event.event_id ≡ k
        → leb n event.attempt ≡ true
        → (1 ≤ tally (is_attempt_from k n) held') ⊎ IsHandled e.event_type e.payment_id db
    replaced k n e f own le = elim done [
      | inr handled ↦
          let (type, payment) = is_known-find_event db.outbox event e (event-known) (rw own f) in
          inr (
            IsHandled-type e.event_type event.event_type e.payment_id db (sym type)
              (rw (← payment) handled))
      | inl next ↦ elim (h.kept k (event.attempt + 1) e f (rw own at next)) [
        | inr handled ↦ inr handled
        | inl later ↦ inl (
            ground (
              arith,
              removes (is_attempt_from k (event.attempt + 1)),
              tally-le (is_attempt_from k (event.attempt + 1)) (is_attempt_from k n)
                  (λ m t. ground arith) held',
            ))
      ]
    ]

    keeps : IsKept log held' db
    keeps k n e f l = elim (Bool-cases (is_attempt_from k n event)) [
      | inl own ↦ replaced k n e f (ground (arith, own)) (ground (arith, own))
      | inr apart ↦ elim (h.kept k n e f l) [
        | inr handled ↦ inr handled
        | inl there ↦
            let same = rw apart at (removes (is_attempt_from k n)) in
            inl (omega (arith, same, there))
      ]
    ]
