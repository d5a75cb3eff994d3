-- ===== src/Services/Relay/Turns.antt =====
-- One turn of the loop: app/services/outbox_relay.py, `run` and `process_batch`.
use async_payment_processing.Prelude.{
  ℕ, ◌≤◌, ◌<◌, ◌≡◌, refl, Bool, true, false, ◌&&◌, List, [], ◌∷◌, ◌==◌, arith, ok, err, tally, All,
  Error, ◌⊎◌, inl, inr, take, select, All-take, All-select, All-imp, Result-cases, All-tally,
  validation_error, Bool-cases, value_error, caught,
}
use async_payment_processing.Prelude.Sort.{sort_by, All-sort_by}
use async_payment_processing.Repositories.Outbox.Oldest.{get_unpublished_batch-oldest}
use async_payment_processing.Models.{OutboxEvent, Database}
use async_payment_processing.Schemas.{EventEnvelope, validate_envelope, Body, dump, other}
use async_payment_processing.Repositories.Session.{Tx, commit}
use async_payment_processing.Repositories.Outbox.{
  mark_published, get_unpublished_batch, is_waiting, event_before,
}
use async_payment_processing.Services.Relay.{Broker, publish_all, process_batch, relay}
use async_payment_processing.Services.Relay.Delivery.{mark_all, process_batch-marks}
use async_payment_processing.Services.Relay.Marks.{
  IsEnvelope, waiting, waiting_as, confirmed_as, mark_all-waiting, mark_all-unconfirmed,
  mark_all-AllEnvelopes, publish_all-works, is_unpublished, mark_published-waiting,
}

pub batch-AllEnvelopes :
    (locked : ℕ → Bool) (batch_size : ℕ) (es batch : List OutboxEvent)
    → get_unpublished_batch locked batch_size es ≡ ok batch
    → All IsEnvelope es
    → All IsEnvelope batch
unfolding get_unpublished_batch
batch-AllEnvelopes locked batch_size es batch h a =
    let same : take batch_size (sort_by event_before (select (is_waiting locked) es)) ≡ batch =
      ground arith in
    rw (← same) (
      All-take IsEnvelope batch_size _ (
        All-sort_by event_before IsEnvelope _
          (All-imp (λ e p. p.0) _ (All-select IsEnvelope (is_waiting locked) es a))))

-- What a turn keeps, whatever happens in it.
pub turn-keeps :
    (broker : Broker) (tx : Tx) (locked : ℕ → Bool) (batch_size : ℕ) (db : Database)
    → All IsEnvelope db.outbox
    → let (confirmed, result, db') = process_batch broker tx locked batch_size db in
      All IsEnvelope db'.outbox
      × (waiting db'.outbox ≤ waiting db.outbox)
      × ((k : ℕ) → confirmed_as k confirmed ≡ 0 → waiting_as k db'.outbox ≡ waiting_as k db.outbox)
turn-keeps broker tx locked batch_size db a =
    let (fails, works) = process_batch-marks broker tx locked batch_size db in
    elim (Result-cases (process_batch broker tx locked batch_size db).1) [
      | inl (x, e) ↦ rw (fails x e) (a, omega arith, λ k z. refl)
      | inr (n, e) ↦
          let (batch, q, len, d, same) = works n e in
          rw same (
            mark_all-AllEnvelopes tx.now batch db.outbox a,
            mark_all-waiting tx.now batch db.outbox,
            λ k z.
                mark_all-unconfirmed broker tx.now k batch _ db.outbox d
                  (batch-AllEnvelopes locked batch_size db.outbox batch q a) z,
          )
    ]

-- The loop goes on after the exceptions of this broker.
abbrev pub IsCaught : Broker → Type 0
IsCaught broker =
    (m : EventEnvelope) (x : Error) → broker m ≡ err x → caught {A = ℕ} (err x) ≡ ok tt

validate_envelope-err :
    (payload : Body) (x : Error) → validate_envelope payload ≡ err x → x ≡ validation_error
unfolding validate_envelope
validate_envelope-err (dump m) x h = ground arith
validate_envelope-err (other j) x h = ground arith

publish_all-caught :
    (broker : Broker) (now : ℕ) (batch rows : List OutboxEvent) (x : Error)
    → IsCaught broker
    → (publish_all broker now batch rows).rows ≡ err x
    → caught {A = ℕ} (err x) ≡ ok tt
unfolding publish_all
publish_all-caught broker now [] rows x b h = absurd (ground arith)
publish_all-caught broker now (e ∷ batch) rows x b h =
    elim (Result-cases (validate_envelope e.payload)) [
      | inl (y, q) ↦
          let eq : y ≡ x = ground (arith) in rw (← eq, validate_envelope-err e.payload y q)
      | inr (m, q) ↦ elim (Result-cases (broker m)) [
        | inl (y, r) ↦ let eq : y ≡ x = ground arith in b m x (ground (arith, eq))
        | inr (done, r) ↦
            publish_all-caught broker now batch (mark_published now e.id rows) x b (ground arith)
      ]
    ]

get_unpublished_batch-err :
    (locked : ℕ → Bool) (batch_size : ℕ) (es : List OutboxEvent) (x : Error)
    → get_unpublished_batch locked batch_size es ≡ err x
    → (x ≡ value_error) × (batch_size ≡ 0)
unfolding get_unpublished_batch
get_unpublished_batch-err locked batch_size es x h = (ground arith, ground arith)

-- So it goes on after each turn.
pub turn-caught :
    (broker : Broker) (tx : Tx) (locked : ℕ → Bool) (batch_size : ℕ) (db : Database)
    → IsCaught broker
    → caught (process_batch broker tx locked batch_size db).1 ≡ ok tt
unfolding process_batch relay commit get_unpublished_batch
turn-caught broker tx locked batch_size db b =
    elim (Result-cases (get_unpublished_batch locked batch_size db.outbox)) [
      | inl (x, q) ↦
          rw q (let eq = (get_unpublished_batch-err locked batch_size db.outbox x q).0 in rw eq)
      | inr (batch, q) ↦ elim (Result-cases (publish_all broker tx.now batch db.outbox).rows) [
        | inl (x, r) ↦ rw (q, r) (publish_all-caught broker tx.now batch db.outbox x b r)
        | inr (rows, r) ↦ rw (q, r) (elim (Bool-cases tx.alive) [ inl u ↦ rw u | inr u ↦ rw u ])
      ]
    ]

is_waiting-waiting : (es : List OutboxEvent) → tally (is_waiting (λ k. false)) es ≡ waiting es
is_waiting-waiting [] = refl
is_waiting-waiting (e ∷ es) = ground (arith, is_waiting-waiting es)

-- An event of a batch waits in the table.
batch-waits :
    (locked : ℕ → Bool) (batch_size : ℕ) (es batch : List OutboxEvent)
    → get_unpublished_batch locked batch_size es ≡ ok batch
    → All (λ e. 1 ≤ waiting_as e.id es) batch
unfolding get_unpublished_batch
batch-waits locked batch_size es batch h =
    let same : take batch_size (sort_by event_before (select (is_waiting locked) es)) ≡ batch =
      ground arith in
    rw (← same) (
      All-take (λ e. 1 ≤ waiting_as e.id es) batch_size _
        (All-sort_by event_before (λ e. 1 ≤ waiting_as e.id es) _
          (All-imp (λ e p. p.0 (ground (arith, p.1))) _
            (All-select _ (is_waiting locked) es
              (All-tally (λ e d. (d.id == e.id) && is_unpublished d) es)))))

marked-waiting :
    (now batch_size : ℕ) (es batch : List OutboxEvent)
    → get_unpublished_batch (λ k. false) batch_size es ≡ ok batch
    → 1 ≤ batch_size
    → (waiting es ≡ 0) ⊎ (waiting (mark_all now batch es) < waiting es)
marked-waiting now batch_size es [] h le =
    let (sorted, len, served) = get_unpublished_batch-oldest (λ k. false) batch_size es [] h in
    inl (omega (arith, len, is_waiting-waiting es))
marked-waiting now batch_size es (e ∷ batch) h le = inr (
    omega (
      arith,
      (batch-waits (λ k. false) batch_size es (e ∷ batch) h).0,
      mark_all-waiting now batch (mark_published now e.id es),
      mark_published-waiting now e.id es,
    ))

-- A turn in which nothing fails makes an event less wait.
pub turn-serves :
    (broker : Broker) (tx : Tx) (batch_size : ℕ) (db : Database)
    → 1 ≤ batch_size
    → tx.alive ≡ true
    → ((m : EventEnvelope) → broker m ≡ ok tt)
    → All IsEnvelope db.outbox
    → let db' = (process_batch broker tx (λ k. false) batch_size db).2 in
      (waiting db.outbox ≡ 0) ⊎ (waiting db'.outbox < waiting db.outbox)
unfolding process_batch relay commit
turn-serves broker tx batch_size db le up b a =
    elim (Result-cases (get_unpublished_batch (λ k. false) batch_size db.outbox)) [
      | inl (x, q) ↦
          absurd
            (omega (arith, (get_unpublished_batch-err (λ k. false) batch_size db.outbox x q).1, le))
      | inr (batch, q) ↦
          rw
            (
              q,
              up,
              publish_all-works broker tx.now batch db.outbox b
                  (batch-AllEnvelopes (λ k. false) batch_size db.outbox batch q a),
            )
            (marked-waiting tx.now batch_size db.outbox batch q le)
    ]
