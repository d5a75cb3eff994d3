-- ===== src/Flow/Create.antt =====
-- Creating a payment on a sound database: app/services/payment.py.
use async_payment_processing.Prelude.{
  ℕ, ◌≤◌, String, ◌≡◌, refl, true, none, List, [], ◌∷◌, ◌++◌, arith, ok, tally, tally-append,
  tally-le, inl, inr, Option-cases, Result, Result-cases,
}
use async_payment_processing.Schemas.{PaymentCreate, valid_amount, validate_payment_create}
use async_payment_processing.Models.{Payment, OutboxEvent, Database}
use async_payment_processing.Models.Rows.{find}
use async_payment_processing.Repositories.Payments.{add, get_by_idempotency_key}
use async_payment_processing.Repositories.Outbox.{add_event}
use async_payment_processing.Repositories.Session.{Tx, commit}
use async_payment_processing.Services.Create.{
  Hashing, new_payment, process_requested_event, insert_both, after_insert, create_payment,
  build_request_fingerprint,
}
use async_payment_processing.Flow.{is_request, is_webhook, is_webhook_as, IsConsistent, IsSound}
use async_payment_processing.Flow.Rows.{commit-IsSound, append-IsSound}

pub insert_both-eq :
    (p : Payment) (e : OutboxEvent) (db changed : Database)
    → insert_both p e db ≡ ok changed
    → (find p.id db.payments ≡ none)
      × (changed ≡ record { payments = db.payments ++ p ∷ []; outbox = db.outbox ++ e ∷ [] })
unfolding insert_both add add_event
insert_both-eq p e db changed h = (ground arith, ground arith)

new_payment-IsConsistent :
    (m : ℕ) (tx : Tx) (event_id : ℕ) (d : PaymentCreate) (key fingerprint : String)
    (es : List OutboxEvent)
    → 1 ≤ m
    → valid_amount d.amount ≡ true
    → (tally (is_request tx.uuid) es ≡ 0) × (tally (is_webhook tx.uuid) es ≡ 0)
    → let p = new_payment tx d key fingerprint in
      IsConsistent m (es ++ process_requested_event event_id tx.now p ∷ []) p
new_payment-IsConsistent m tx event_id d key fingerprint es some_attempt payable orphan = record {
  payable = payable;
  requested = ground (arith, tally-append {0} (is_request tx.uuid) es (e ∷ []), orphan.0);
  announced = ground (arith, tally-append {0} (is_webhook tx.uuid) es (e ∷ []), orphan.1);
  announced_as = ground (
    arith,
    tally-append {0} (is_webhook_as tx.uuid none) es (e ∷ []),
    tally-le {0} (is_webhook_as tx.uuid none) (is_webhook tx.uuid) (λ x t. ground arith) es,
    orphan.1,
  );
  named = refl;
  answered = refl;
  dated = refl;
  sent = λ t. cc;
  leased = refl;
  lease_unknown = λ t. cc;
  reviewed = ground arith;
  review_unknown = λ t. cc;
  spent = omega arith;
  lease_open = λ t. cc;
  fresh = λ t. refl;
}
  where
    e : OutboxEvent
    e = process_requested_event event_id tx.now (new_payment tx d key fingerprint)

pub inserted-IsSound :
    (m : ℕ) (tx : Tx) (event_id : ℕ) (d : PaymentCreate) (key fingerprint : String) (db : Database)
    → 1 ≤ m
    → valid_amount d.amount ≡ true
    → IsSound m db
    → let p = new_payment tx d key fingerprint in
      IsSound m
        (commit {0} tx tt (insert_both p (process_requested_event event_id tx.now p) db) db).1
inserted-IsSound m tx event_id d key fingerprint db some_attempt payable h =
    commit-IsSound m tx tt (insert_both _ _ db) db
      (λ changed e.
        let (none_yet, same) = insert_both-eq _ _ db changed e in
        rw same (
          append-IsSound m db _ _ none_yet refl
            (new_payment-IsConsistent m tx event_id d key fingerprint db.outbox some_attempt payable
              (h.no_orphans tx.uuid none_yet))
            h))
      h

after_insert-db :
    (tx : Tx) (key fingerprint : String) (p : Payment) (x : Result (Unit {0}) × Database)
    → (after_insert tx key fingerprint p x).1 ≡ x.1
unfolding after_insert
after_insert-db tx key fingerprint p (r, db) = ground arith

pub valid-amount :
    (d : PaymentCreate) → validate_payment_create d ≡ ok d → valid_amount d.amount ≡ true
unfolding validate_payment_create
valid-amount d h = ground arith

-- `create_payment` keeps the database sound on each of its ways out, if what it is given has passed
-- the validation of its schema and what other sessions commit meanwhile keeps it sound.
pub create_payment-IsSound :
    (m : ℕ) (h : Hashing) (tx : Tx) (event_id : ℕ) (others : Database → Database)
    (d : PaymentCreate) (key : String) (db : Database)
    → 1 ≤ m
    → validate_payment_create d ≡ ok d
    → ((t : Database) → IsSound m t → IsSound m (others t))
    → IsSound m db
    → IsSound m (create_payment h tx event_id others d key db).1
unfolding create_payment
create_payment-IsSound m h tx event_id others d key db some_attempt valid keep sound =
    elim (Result-cases (build_request_fingerprint h d)) [
      | inl (e, q) ↦ rw q sound
      | inr (fingerprint, q) ↦ elim (Option-cases (get_by_idempotency_key key db.payments)) [
        | inr (p, f) ↦ rw (q, f) sound
        | inl f ↦
            rw (q, f, after_insert-db tx)
              (inserted-IsSound m tx event_id d key fingerprint (others db) some_attempt
                (valid-amount d valid) (keep db sound))
      ]
    ]
