-- ===== src/Services/Create/Stored.antt =====
-- What a creation stores under a free key: app/services/payment.py.
use async_payment_processing.Prelude.{
  ℕ, String, ◌≡◌, inl, inr, true, none, some, arith, ok, Result, Result-cases, refl, sym, ap, ◌∙◌,
}
use async_payment_processing.Schemas.{PaymentCreate}
use async_payment_processing.Models.{Payment, OutboxEvent, Database}
use async_payment_processing.Models.Rows.{find, find-append_one}
use async_payment_processing.Repositories.Payments.{get_by_idempotency_key, add}
use async_payment_processing.Repositories.Outbox.{add_event}
use async_payment_processing.Repositories.Session.{Tx, commit}
use async_payment_processing.Services.Create.{
  Hashing, PaymentCreationResult, new_payment, process_requested_event, insert_both, after_insert,
  create_payment, build_request_fingerprint,
}
use async_payment_processing.Services.Create.Idempotency.{created-db}

-- The row is in the database, under its id and under its key.
abbrev pub IsStored : Payment → Database → Type 0
IsStored p db =
    (find p.id db.payments ≡ some p)
    × (get_by_idempotency_key p.idempotency_key db.payments ≡ some p)

inserted-ok :
    (tx : Tx) (p : Payment) (e : OutboxEvent) (db : Database) (fingerprint : String)
    (r : PaymentCreationResult)
    → get_by_idempotency_key p.idempotency_key db.payments ≡ none
    → (after_insert tx p.idempotency_key fingerprint p (commit {0} tx tt (insert_both p e db) db)).0
      ≡ ok r
    → (r ≡ record { payment = p; created = true })
      × ((commit {0} tx tt (insert_both p e db) db).0 ≡ ok tt)
unfolding after_insert commit insert_both add add_event
inserted-ok tx p e db fingerprint r free done = (ground arith, ground arith)

inserted-found :
    (tx : Tx) (p : Payment) (e : OutboxEvent) (db : Database)
    → (commit {0} tx tt (insert_both p e db) db).0 ≡ ok tt
    → find p.id (commit {0} tx tt (insert_both p e db) db).1.payments ≡ some p
unfolding commit insert_both add add_event
inserted-found tx p e db done = ground (arith, find-append_one p.id db.payments p)

after_insert-db :
    (tx : Tx) (key fingerprint : String) (p : Payment) (x : Result (Unit {0}) × Database)
    → (after_insert tx key fingerprint p x).1 ≡ x.1
unfolding after_insert
after_insert-db tx key fingerprint p (r, db) = ground arith

module _ (h : Hashing) (tx : Tx) (event_id : ℕ) (others : Database → Database) (d : PaymentCreate)
    (key : String) (db : Database) where
  create_payment-new :
      (fingerprint : String)
      → build_request_fingerprint h d ≡ ok fingerprint
      → get_by_idempotency_key key db.payments ≡ none
      → let p = new_payment tx d key fingerprint in
        create_payment h tx event_id others d key db
        ≡ after_insert tx key fingerprint p (
            commit {0} tx tt
              (insert_both p (process_requested_event event_id tx.now p) (others db))
              (others db))
  unfolding create_payment
  create_payment-new fingerprint q free = rw (q, free)

  -- A creation under a free key that gives a result has stored the new row.
  pub create_payment-stores :
      (r : PaymentCreationResult)
      → get_by_idempotency_key key db.payments ≡ none
      → get_by_idempotency_key key (others db).payments ≡ none
      → (create_payment h tx event_id others d key db).0 ≡ ok r
      → (fingerprint : String) × (build_request_fingerprint h d ≡ ok fingerprint)
        × (r ≡ record { payment = new_payment tx d key fingerprint; created = true })
        × IsStored
            (new_payment tx d key fingerprint)
            (create_payment h tx event_id others d key db).1
  unfolding create_payment
  create_payment-stores r free free' done = elim (Result-cases (build_request_fingerprint h d)) [
    | inl (e, q) ↦ absurd (ground arith)
    | inr (fingerprint, q) ↦
        let p : Payment = new_payment tx d key fingerprint in
        let e : OutboxEvent = process_requested_event event_id tx.now p in
        let same = create_payment-new fingerprint q free in
        let (made, inserted) =
          inserted-ok tx p e (others db) fingerprint r free' (sym (ap (λ x. x.0) same) ∙ done) in
        (
          fingerprint,
          q,
          made,
          rw (same, after_insert-db tx key fingerprint p)
              (
                inserted-found tx p e (others db) inserted,
                (created-db tx p e key (others db) free' refl inserted).1,
              ),
        )
  ]
