-- ===== src/System/Transactions.antt =====
-- The events under transactions: app/services and app/worker.
use async_payment_processing.Prelude.{
  ℕ, ◌≤◌, ◌≡◌, refl, inl, inr, Bool, true, some, List, [], ◌∷◌, arith, ◌==◌, Bool-cases, ==_iff,
  All, Result-cases,
}
use async_payment_processing.Models.{OutboxEvent, Database}
use async_payment_processing.Schemas.{EventEnvelope}
use async_payment_processing.Repositories.Outbox.{has_event}
use async_payment_processing.Repositories.Outbox.Found.{
  find_event, find_event-append, AllFound, AllFound-append, mark_all-AllFound, find_event-mark_all,
}
use async_payment_processing.Repositories.Session.{Tx}
use async_payment_processing.Services.Relay.{Broker, process_batch}
use async_payment_processing.Services.Relay.Delivery.{process_batch-marks, IsDelivered, mark_all}
use async_payment_processing.Services.Relay.Marks.{IsEnvelope, confirmed_as, mark_all-AllEnvelopes}
use async_payment_processing.Services.Relay.Turns.{batch-AllEnvelopes}
use async_payment_processing.Services.Reconciliation.{Config}
use async_payment_processing.Flow.Envelopes.{HasGrown-AllEnvelopes}
use async_payment_processing.Flow.Outbox.{HasGrown, IsLocal, Step-HasGrown}
use async_payment_processing.Flow.Progress.{relay-Advances}
use async_payment_processing.Flow.Reach.{Step, Step-Advances}
use async_payment_processing.System.Accounted.{IsAccounted, ComesFrom, IsAccounted-later}
use async_payment_processing.System.Known.{is_known, is_known-append, is_known-mark_all}

module _ (log held : List EventEnvelope) (t u : Database) (grown : HasGrown t u) where
  grown-known : (m : EventEnvelope) → is_known t.outbox m ≡ true → is_known u.outbox m ≡ true
  grown-known m k = elim grown [
    | inl same ↦ rw same k
    | inr (e, same, fresh, waits, envelope) ↦ rw same (is_known-append t.outbox (e ∷ []) m k)
  ]

  grown-ComesFrom :
      (k : ℕ) (e : OutboxEvent) → find_event k u.outbox ≡ some e → ComesFrom log t.outbox k e
  grown-ComesFrom k e f = elim grown [
    | inl same ↦ inl (e, rw same at f, refl, refl, inl refl)
    | inr (new, same, fresh, waits, envelope) ↦
        let g = rw (same, find_event-append k t.outbox new fresh) at f in
        elim (Bool-cases (new.id == k)) [
          | inl own ↦
              let eq : new ≡ e = ground (arith, rw own at g) in
              inr (rw (← eq) waits, ground (arith, own, fresh, (==_iff new.id k).0 own))
          | inr other ↦ inl (e, rw other at g, refl, refl, inl refl)
        ]
  ]

  grown-AllFound : AllFound t.outbox → AllFound u.outbox
  grown-AllFound h = elim grown [
    | inl same ↦ rw same h
    | inr (e, same, fresh, waits, envelope) ↦ rw same (AllFound-append t.outbox e fresh h)
  ]

pub local-IsAccounted :
    {c : Config} (log held : List EventEnvelope) (t u : Database) (st : Step c t u)
    → IsLocal st
    → IsAccounted log held t
    → IsAccounted log held u
local-IsAccounted log held t u st own h =
    let grown = Step-HasGrown st own in
    IsAccounted-later log held t u (grown-known log held t u grown)
      (grown-ComesFrom log held t u grown) (Step-Advances st)
      (HasGrown-AllEnvelopes t u grown h.envelopes) (grown-AllFound log held t u grown h.found) h

-- An event of a batch that was delivered was confirmed.
delivered-confirmed :
    (broker : Broker) (now k : ℕ) (batch : List OutboxEvent) (ms : List EventEnvelope)
    → IsDelivered broker now batch ms
    → All IsEnvelope batch
    → has_event k batch ≡ true
    → 1 ≤ confirmed_as k ms
unfolding has_event
delivered-confirmed broker now k [] ms d a h = absurd (ground arith)
delivered-confirmed broker now k (e ∷ batch) [] d a h = elim d [ ]
delivered-confirmed broker now k (e ∷ batch) (m ∷ ms) (v, b, d) ((m', v', same, t, p), a) h =
    let eq : m ≡ m' = ground arith in
    ground (arith, eq, same, delivered-confirmed broker now k batch ms d a)

pub relays-IsAccounted :
    (log held : List EventEnvelope) (db : Database) (broker : Broker) (tx : Tx) (locked : ℕ → Bool)
    (batch_size : ℕ)
    → ((k : ℕ)
        → 1 ≤ confirmed_as k (process_batch broker tx locked batch_size db).0
        → 1 ≤ confirmed_as k log)
    → IsAccounted log held db
    → IsAccounted log held (process_batch broker tx locked batch_size db).2
relays-IsAccounted log held db broker tx locked batch_size logged h =
    let (fails, works) = process_batch-marks broker tx locked batch_size db in
    elim (Result-cases (process_batch broker tx locked batch_size db).1) [
      | inl (x, e) ↦ rw (fails x e) h
      | inr (n, e) ↦
          let (batch, q, len, d, same) = works n e in
          IsAccounted-later log held db (process_batch broker tx locked batch_size db).2
            (λ m k. rw (same, is_known-mark_all tx.now batch db.outbox m) k)
            (marked-ComesFrom batch same (λ k taken. logged k (
              delivered-confirmed broker tx.now k batch _ d
                (batch-AllEnvelopes locked batch_size db.outbox batch q h.envelopes) taken)))
            (relay-Advances broker tx locked batch_size db)
            (rw same (mark_all-AllEnvelopes tx.now batch db.outbox h.envelopes))
            (rw same (mark_all-AllFound tx.now batch db.outbox h.found)) h
    ]
  where
    marked-ComesFrom :
        (batch : List OutboxEvent)
        → (process_batch broker tx locked batch_size db).2
          ≡ record db { outbox = mark_all tx.now batch db.outbox }
        → ((k : ℕ) → has_event k batch ≡ true → 1 ≤ confirmed_as k log)
        → (k : ℕ) (e : OutboxEvent)
        → find_event k (process_batch broker tx locked batch_size db).2.outbox ≡ some e
        → ComesFrom log db.outbox k e
    marked-ComesFrom batch same once k e f =
        let (e0, g, type, payment, kept) =
          find_event-mark_all tx.now k batch db.outbox e (rw same at f) in
        inl (
          e0,
          g,
          type,
          payment,
          elim (Bool-cases (has_event k batch)) [
            | inl own ↦ inr (once k own)
            | inr other ↦ inl (kept other)
          ],
        )
