-- ===== src/Services/Create/Idempotency.antt =====
-- The requests of one idempotency key: app/services/payment.py.
use async_payment_processing.Prelude.{
  String, ◌≡◌, none, some, List, [], ◌∷◌, ◌++◌, arith, ℕ, ◌≢◌, ◌⊎◌, true, false, if◌then◌else◌, ok,
  err, idempotency_conflict, refl, inl, inr, Option-cases, Result, Result-cases, Bool-cases,
  database_error,
}
use text.Mathlib.Text.{◌==◌ as text_eq}
use text.Mathlib.TextPositions.{eq_refl}
use async_payment_processing.Schemas.{PaymentCreate}
use async_payment_processing.Models.{Payment, OutboxEvent, Database}
use async_payment_processing.Repositories.Payments.{get_by_idempotency_key, add}
use async_payment_processing.Repositories.Outbox.{add_event}
use async_payment_processing.Repositories.Session.{Tx, commit}
use async_payment_processing.Services.Create.{
  Hashing, PaymentCreationResult, new_payment, process_requested_event, insert_both, after_insert,
  create_payment, build_request_fingerprint, resolve_existing_payment,
}

get_by_idempotency_key-append :
    (key : String) (ps : List Payment) (p : Payment)
    → get_by_idempotency_key key ps ≡ none
    → p.idempotency_key ≡ key
    → get_by_idempotency_key key (ps ++ p ∷ []) ≡ some p
unfolding get_by_idempotency_key
get_by_idempotency_key-append key [] p h e = rw (e, eq_refl)
get_by_idempotency_key-append key (q ∷ ps) p h e =
    ground (arith, get_by_idempotency_key-append key ps p)

-- The inserts of a key that is free: both rows are there, and the new one is found under its key.
pub created-db :
    (tx : Tx) (p : Payment) (e : OutboxEvent) (key : String) (db : Database)
    → get_by_idempotency_key key db.payments ≡ none
    → p.idempotency_key ≡ key
    → (commit {0} tx tt (insert_both p e db) db).0 ≡ ok tt
    → let db' = (commit {0} tx tt (insert_both p e db) db).1 in
      (db' ≡ record { payments = db.payments ++ p ∷ []; outbox = db.outbox ++ e ∷ [] })
      × (get_by_idempotency_key key db'.payments ≡ some p)
unfolding commit insert_both add add_event
created-db tx p e key db free own done =
    ground (arith, get_by_idempotency_key-append key db.payments p)

-- The database with a payment and the request to process it.
abbrev pub with_both : ℕ → Tx → Payment → Database → Database
with_both event_id tx p db = record {
  payments = db.payments ++ p ∷ [];
  outbox = db.outbox ++ process_requested_event event_id tx.now p ∷ [];
}

resolve-not_created :
    (q p : Payment) (fingerprint : String)
    → resolve_existing_payment q fingerprint ≢ ok (record { payment = p; created = true })
unfolding resolve_existing_payment
resolve-not_created q p fingerprint = ground arith

module _ (tx : Tx) (event_id : ℕ) (p : Payment) (key fingerprint : String) (db : Database) where
  -- What the inserts, their `except` clauses and the `refresh` give.
  abbrev inserted : Result PaymentCreationResult × Database
  inserted =
      after_insert tx key fingerprint p
        (commit {0} tx tt (insert_both p (process_requested_event event_id tx.now p) db) db)

  inserted-reports :
      (q : Payment)
      → inserted.0 ≡ ok (record { payment = q; created = true })
      → inserted.1 ≡ with_both event_id tx q db
  unfolding after_insert commit insert_both add add_event resolve_existing_payment
  inserted-reports q e = ground arith

  inserted-silent :
      ((q : Payment) → inserted.0 ≢ ok (record { payment = q; created = true }))
      → (inserted.1 ≡ db)
        ⊎ ((tx.refreshes ≡ false)
            × (inserted.0 ≡ err database_error)
            × (inserted.1 ≡ with_both event_id tx p db))
  unfolding after_insert commit insert_both add add_event resolve_existing_payment
  inserted-silent none_made = elim (Bool-cases tx.refreshes) [
    | inl r ↦ inl (ground (arith, none_made p))
    | inr r ↦
        elim (Result-cases
          (commit {0} tx tt (insert_both p (process_requested_event event_id tx.now p) db) db).0) [
            | inl (e, q) ↦ inl (ground arith)
            | inr (done, q) ↦ inr (r, ground arith, ground arith)
          ]
  ]

-- `create_payment` is all or nothing. If it reports a new payment, this payment and the request to
-- process it were added together, and nothing else. If not, the database is as the other sessions left
-- it, or as it was if it never came to the inserts; but a database error of the `refresh` that follows
-- the commit is raised after a payment under this key and the request to process it were added
-- together.
pub create_payment-atomic :
    (h : Hashing) (tx : Tx) (event_id : ℕ) (others : Database → Database) (d : PaymentCreate)
    (key : String) (db : Database)
    → let (result, db') = create_payment h tx event_id others d key db in
      ((p : Payment)
        → result ≡ ok (record { payment = p; created = true })
        → db' ≡ with_both event_id tx p (others db))
      × (((p : Payment) → result ≢ ok (record { payment = p; created = true }))
          → (db' ≡ db)
            ⊎ (db' ≡ others db)
            ⊎ ((tx.refreshes ≡ false)
                × (result ≡ err database_error)
                × (p : Payment) × (p.idempotency_key ≡ key)
                × (db' ≡ with_both event_id tx p (others db))))
unfolding create_payment
create_payment-atomic h tx event_id others d key db =
    elim (Result-cases (build_request_fingerprint h d)) [
      | inl (e, q) ↦ rw q (λ p c. cc, λ n. inl refl)
      | inr (fingerprint, q) ↦ elim (Option-cases (get_by_idempotency_key key db.payments)) [
        | inr (r, f) ↦
            rw (q, f) (λ p c. absurd (resolve-not_created r p fingerprint c), λ n. inl refl)
        | inl f ↦
            let p : Payment = new_payment tx d key fingerprint in
            rw (q, f)
              (
                inserted-reports tx event_id p key fingerprint (others db),
                λ n. elim (inserted-silent tx event_id p key fingerprint (others db) n) [
                  | inl same ↦ inr (inl same)
                  | inr (r, e, both) ↦ inr (inr (r, e, p, refl, both))
                ],
              )
      ]
    ]

-- `create_payment` under a key that a payment has.
pub create_payment-again :
    (h : Hashing) (tx : Tx) (event_id : ℕ) (others : Database → Database) (d : PaymentCreate)
    (key fingerprint : String) (p : Payment) (db : Database)
    → build_request_fingerprint h d ≡ ok fingerprint
    → get_by_idempotency_key key db.payments ≡ some p
    → create_payment h tx event_id others d key db ≡ (
      (if text_eq p.request_fingerprint fingerprint
          then ok (record { payment = p; created = false })
          else err idempotency_conflict),
      db,
    )
unfolding create_payment resolve_existing_payment
create_payment-again h tx event_id others d key fingerprint p db q f = rw (q, f)
