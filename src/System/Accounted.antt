-- ===== src/System/Accounted.antt =====
-- The messages that were published, step by step: app/integrations/rabbitmq and app/worker.
use async_payment_processing.Prelude.{
  ℕ, ◌≤◌, ◌≡◌, ◌⊎◌, inl, inr, Bool, true, false, none, some, List, arith, Bool-cases, tally,
  tally-le, not,
}
use async_payment_processing.Schemas.{EventEnvelope}
use async_payment_processing.Models.{OutboxEvent, Database}
use async_payment_processing.Repositories.Outbox.{has_event}
use async_payment_processing.Repositories.Outbox.Found.{find_event, AllFound}
use async_payment_processing.Services.Relay.Marks.{confirmed_as}
use async_payment_processing.Flow.Envelopes.{AllEnvelopes}
use async_payment_processing.Flow.Handled.{IsHandled, IsHandled-later, IsHandled-type}
use async_payment_processing.Flow.Later.{Advances}
use async_payment_processing.System.Known.{is_valid, is_known, is_strange, is_known-has_event}
use async_payment_processing.System.Step.{is_attempt, is_attempt_from}

-- A marked row was published.
abbrev pub IsMarked : List EventEnvelope → List OutboxEvent → Type 0
IsMarked log es =
    (k : ℕ) (e : OutboxEvent)
    → find_event k es ≡ some e
    → (e.published_at ≡ none) ⊎ (1 ≤ confirmed_as k log)

-- Of each attempt that was published, it or a later one is held, or the event is handled.
abbrev pub IsKept : List EventEnvelope → List EventEnvelope → Database → Type 0
IsKept log held db =
    (k n : ℕ) (e : OutboxEvent)
    → find_event k db.outbox ≡ some e
    → 1 ≤ tally (is_attempt k n) log
    → (1 ≤ tally (is_attempt_from k n) held) ⊎ IsHandled e.event_type e.payment_id db

pub record IsAccounted (log held : List EventEnvelope) (db : Database) : Type 0 where
  pub envelopes : AllEnvelopes db
  pub found : AllFound db.outbox
  pub known : tally (is_strange db.outbox) log ≡ 0
  pub valid : tally (λ (m : EventEnvelope). not (is_valid m)) log ≡ 0
  pub arrived : (test : EventEnvelope → Bool) → tally test held ≤ tally test log
  pub marked : IsMarked log db.outbox
  pub kept : IsKept log held db

-- How a row of the outbox comes from the tables before: it is the same, but for a mark of what was
-- published, or it is new and unpublished.
abbrev pub ComesFrom : List EventEnvelope → List OutboxEvent → ℕ → OutboxEvent → Type 0
ComesFrom log es k e' =
    ((e : OutboxEvent) × (find_event k es ≡ some e)
      × (e'.event_type ≡ e.event_type)
      × (e'.payment_id ≡ e.payment_id)
      × ((e' ≡ e) ⊎ (1 ≤ confirmed_as k log)))
    ⊎ ((e'.published_at ≡ none) × (has_event k es ≡ false))

-- An id that the outbox does not have was not published.
unpublished :
    (k n : ℕ) (es : List OutboxEvent) (log : List EventEnvelope)
    → has_event k es ≡ false
    → tally (is_strange es) log ≡ 0
    → tally (is_attempt k n) log ≡ 0
unpublished k n es log h z =
    omega (arith, z, tally-le (is_attempt k n) (is_strange es) only_strange log)
  where
    only_strange : (m : EventEnvelope) → is_attempt k n m ≡ true → is_strange es m ≡ true
    only_strange m t = elim (Bool-cases (is_known es m)) [
      | inr b ↦ rw b
      | inl b ↦
          let taken = is_known-has_event es m b in
          let same : m.event_id ≡ k = ground (arith, t) in
          absurd (ground (arith, rw same at taken, h))
    ]

-- What transactions keep.
module _ (log held : List EventEnvelope) (t u : Database)
    (known : (m : EventEnvelope) → is_known t.outbox m ≡ true → is_known u.outbox m ≡ true)
    (origin : (k : ℕ) (e : OutboxEvent)
      → find_event k u.outbox ≡ some e
      → ComesFrom log t.outbox k e)
    (advances : Advances t u) where
  IsMarked-later : IsMarked log t.outbox → IsMarked log u.outbox
  IsMarked-later h k e' f = elim (origin k e' f) [
    | inr (waits, new) ↦ inl waits
    | inl (e, g, type, payment, inr once) ↦ inr once
    | inl (e, g, type, payment, inl same) ↦ rw same (h k e g)
  ]

  IsKept-later : tally (is_strange t.outbox) log ≡ 0 → IsKept log held t → IsKept log held u
  IsKept-later z h k n e' f l = elim (origin k e' f) [
    | inr (waits, new) ↦ absurd (omega (arith, unpublished k n t.outbox log new z))
    | inl (e, g, type, payment, marked) ↦ elim (h k n e g l) [
      | inl there ↦ inl there
      | inr done ↦ inr (
          IsHandled-type e'.event_type e.event_type e'.payment_id u type
            (rw payment (IsHandled-later e.event_type e.payment_id t u advances done)))
    ]
  ]

  pub IsAccounted-later :
      AllEnvelopes u → AllFound u.outbox → IsAccounted log held t → IsAccounted log held u
  IsAccounted-later envelopes found h = record {
    envelopes = envelopes;
    found = found;
    known = omega (
      arith,
      h.known,
      tally-le (is_strange u.outbox) (is_strange t.outbox) (λ m s. ground (arith, known m)) log,
    );
    valid = h.valid;
    arrived = h.arrived;
    marked = IsMarked-later h.marked;
    kept = IsKept-later h.known h.kept;
  }
