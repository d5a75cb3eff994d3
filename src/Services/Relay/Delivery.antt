-- ===== src/Services/Relay/Delivery.antt =====
-- One batch of the relay: app/services/outbox_relay.py, `process_batch`.
use async_payment_processing.Prelude.{
  ℕ, ◌≡◌, inl, inr, List, [], ◌∷◌, ok, Result-cases, refl, Bool, arith, Bool-cases, err, length,
  Error, sym, ap, ◌∙◌, false, ◌||◌, some, if◌then◌else◌, ◌==◌,
}
use async_payment_processing.Schemas.{EventEnvelope, validate_envelope}
use async_payment_processing.Models.{OutboxEvent, Database}
use async_payment_processing.Repositories.Outbox.{get_unpublished_batch, mark_published}
use async_payment_processing.Repositories.Session.{Tx}
use async_payment_processing.Services.Relay.{Broker, publish_all, process_batch}

-- The rows after each event of a batch was marked.
abbrev pub mark_all : ℕ → List OutboxEvent → List OutboxEvent → List OutboxEvent
mark_all now [] rows = rows
mark_all now (e ∷ es) rows = mark_all now es (mark_published now e.id rows)

-- What a batch that was published whole has done: its payloads are envelopes, the broker has confirmed
-- each of them in the order of the batch, and its rows are marked.
abbrev pub IsDelivered : Broker → ℕ → List OutboxEvent → List EventEnvelope → Type 0
IsDelivered broker now [] [] = Unit
IsDelivered broker now [] (m ∷ ms) = ⊥
IsDelivered broker now (e ∷ es) [] = ⊥
IsDelivered broker now (e ∷ es) (m ∷ ms) =
    (validate_envelope e.payload ≡ ok m) × (broker m ≡ ok tt) × IsDelivered broker now es ms

publish_all-delivers :
    (broker : Broker) (now : ℕ) (batch rows rows' : List OutboxEvent)
    → (publish_all broker now batch rows).rows ≡ ok rows'
    → IsDelivered broker now batch (publish_all broker now batch rows).confirmed
      × (rows' ≡ mark_all now batch rows)
unfolding publish_all
publish_all-delivers broker now [] rows rows' h = (tt, cc)
publish_all-delivers broker now (e ∷ es) rows rows' h =
    elim (Result-cases (validate_envelope e.payload)) [
      | inl (x, q) ↦ absurd (ground arith)
      | inr (m, q) ↦ elim (Result-cases (broker m)) [
        | inl (x, r) ↦ absurd (ground arith)
        | inr (done, r) ↦
            let ih =
              publish_all-delivers broker now es (mark_published now e.id rows) rows'
                (ground arith) in
            rw (q, r) ((q, r, ih.0), ih.1)
      ]
    ]

-- A batch fails without a write, or its messages are confirmed and `mark_published` has run for each.
pub process_batch-marks :
    (broker : Broker) (tx : Tx) (locked : ℕ → Bool) (batch_size : ℕ) (db : Database)
    → let (confirmed, result, db') = process_batch broker tx locked batch_size db in
      ((x : Error) → result ≡ err x → db' ≡ db)
      × ((n : ℕ)
          → result ≡ ok n
          → (batch : List OutboxEvent) × (get_unpublished_batch locked batch_size db.outbox
              ≡ ok batch)
            × (n ≡ length batch)
            × IsDelivered broker tx.now batch confirmed
            × (db' ≡ record db { outbox = mark_all tx.now batch db.outbox }))
unfolding process_batch
process_batch-marks broker tx locked batch_size db =
    elim (Result-cases (get_unpublished_batch locked batch_size db.outbox)) [
      | inl (x, q) ↦ rw q (λ y e. refl, λ n e. cc)
      | inr (batch, q) ↦ elim (Result-cases (publish_all broker tx.now batch db.outbox).rows) [
        | inl (x, r) ↦ rw (q, r) (λ y e. refl, λ n e. cc)
        | inr (rows, r) ↦
            let (d, m) = publish_all-delivers broker tx.now batch db.outbox rows r in
            elim (Bool-cases tx.alive) [
              | inl up ↦ rw (q, r, up) (λ y e. cc, λ n e. (batch, refl, ground arith, d, rw m))
              | inr down ↦ rw (q, r, down) (λ y e. refl, λ n e. cc)
            ]
      ]
    ]

-- An event of the batch has this id.
abbrev pub is_in : List OutboxEvent → ℕ → Bool
is_in [] k = false
is_in (e ∷ es) k = (e.id == k) || is_in es k

-- The rows as they are when those of the batch carry the time of their publication.
abbrev pub published_at_once : ℕ → List OutboxEvent → List OutboxEvent → List OutboxEvent
published_at_once now batch [] = []
published_at_once now batch (e ∷ es) =
    (if is_in batch e.id then record e { published_at = some now } else e)
    ∷ published_at_once now batch es

published_at_once-none : (now : ℕ) (rows : List OutboxEvent) → published_at_once now [] rows ≡ rows
published_at_once-none now [] = refl
published_at_once-none now (e ∷ es) = rw (published_at_once-none now es)

published_at_once-next :
    (now : ℕ) (x : OutboxEvent) (batch rows : List OutboxEvent)
    → published_at_once now batch (mark_published now x.id rows)
      ≡ published_at_once now (x ∷ batch) rows
unfolding mark_published
published_at_once-next now x batch [] = refl
published_at_once-next now x batch (e ∷ es) = ground (arith, published_at_once-next now x batch es)

mark_all-published :
    (now : ℕ) (batch rows : List OutboxEvent)
    → mark_all now batch rows ≡ published_at_once now batch rows
mark_all-published now [] rows = sym (published_at_once-none now rows)
mark_all-published now (x ∷ batch) rows =
    mark_all-published now batch (mark_published now x.id rows)
    ∙ published_at_once-next now x batch rows

-- A batch of the relay either fails, and then the database is unchanged, whatever the broker has already
-- got, so that every event of it is read again; or it reports the number of its events, and then
-- the broker has confirmed each of them in their order, the rows whose ids are in the batch carry the
-- time of the batch as that of their publication, and nothing else of the database has changed.
pub process_batch-delivers :
    (broker : Broker) (tx : Tx) (locked : ℕ → Bool) (batch_size : ℕ) (db : Database)
    → let (confirmed, result, db') = process_batch broker tx locked batch_size db in
      ((x : Error) → result ≡ err x → db' ≡ db)
      × ((n : ℕ)
          → result ≡ ok n
          → (batch : List OutboxEvent) × (get_unpublished_batch locked batch_size db.outbox
              ≡ ok batch)
            × (n ≡ length batch)
            × IsDelivered broker tx.now batch confirmed
            × (db' ≡ record db { outbox = published_at_once tx.now batch db.outbox }))
process_batch-delivers broker tx locked batch_size db =
    let (fails, works) = process_batch-marks broker tx locked batch_size db in
    (
      fails,
      λ n e.
          let (batch, read, size, delivered, same) = works n e in
          (
            batch,
            read,
            size,
            delivered,
            same
                ∙ ap (λ es. record { payments = db.payments; outbox = es })
                    (mark_all-published tx.now batch db.outbox),
          ),
    )
