-- ===== src/Tests/Services.antt =====
-- Runs of the services.
use async_payment_processing.Repositories.Outbox.{get_unpublished_batch, add_event}
use async_payment_processing.Prelude.Sort.{sort_by}
use async_payment_processing.Models.Rows.{find}
use async_payment_processing.Repositories.Payments.{add, claimed_rows}
use async_payment_processing.Prelude.{
  ℕ, ◌<◌, ◌≡◌, refl, ◌≢◌, ◌⊎◌, true, false, none, List, ok, err, length, Error, database_error,
}
use async_payment_processing.Models.{Payment, OutboxEvent}
use async_payment_processing.Services.Create.{create_payment, build_request_fingerprint}
use async_payment_processing.Services.Relay
use async_payment_processing.Repositories.Payments.{
  claim_reconciliation_batch, get_claimed_payment_for_update, get_by_idempotency_key, contains,
}
use async_payment_processing.Services.Relay.Delivery.{
  IsDelivered, published_at_once, process_batch-delivers,
}
use async_payment_processing.Services.Create.Idempotency.{create_payment-atomic, with_both}
use async_payment_processing.Services.Reconciliation.Lease.{lease_excludes}
use async_payment_processing.Flow.Reach.{empty}
use async_payment_processing.Tests.Samples.{
  order, tx_at, hashing, new_row, db_pending, db_unknown, unknown-IsSound,
}

abbrev broker : Relay.Broker
broker m = ok tt

process_batch-delivers_example :
    let (confirmed, result, db') =
      Relay.process_batch broker (tx_at 2) (λ k. false) 20 db_pending in
    ((x : Error) → result ≡ err x → db' ≡ db_pending)
    × ((n : ℕ)
        → result ≡ ok n
        → (batch : List OutboxEvent) × (get_unpublished_batch (λ k. false) 20 db_pending.outbox
            ≡ ok batch)
          × (n ≡ length batch)
          × IsDelivered broker 2 batch confirmed
          × (db' ≡ record db_pending { outbox = published_at_once 2 batch db_pending.outbox }))
process_batch-delivers_example = process_batch-delivers broker (tx_at 2) (λ k. false) 20 db_pending

create_payment-atomic_example :
    let (result, db') = create_payment hashing (tx_at 1) 50 (λ db. db) order "order-123" empty in
    ((p : Payment)
      → result ≡ ok (record { payment = p; created = true })
      → db' ≡ with_both 50 (tx_at 1) p empty)
    × (((p : Payment) → result ≢ ok (record { payment = p; created = true }))
        → (db' ≡ empty)
          ⊎ (db' ≡ empty)
          ⊎ (((tx_at 1).refreshes ≡ false)
              × (result ≡ err database_error)
              × (p : Payment) × (p.idempotency_key ≡ "order-123")
              × (db' ≡ with_both 50 (tx_at 1) p empty)))
create_payment-atomic_example =
    create_payment-atomic hashing (tx_at 1) 50 (λ db. db) order "order-123" empty

-- The first request makes the row.
created_run :
    create_payment hashing (tx_at 1) 50 (λ db. db) order "order-123" empty
    ≡ (ok (record { payment = new_row; created = true }), db_pending)
unfolding create_payment build_request_fingerprint get_by_idempotency_key add find add_event
created_run = refl

claimed_one :
    contains 101 (claim_reconciliation_batch (λ k. false) 10 40 140 100 20 40 db_unknown.payments).0
    ≡ true
unfolding claim_reconciliation_batch claimed_rows sort_by
claimed_one = refl

lease_excludes_example :
    let (claimed, ps') =
      claim_reconciliation_batch (λ k. false) 10 40 140 100 20 40 db_unknown.payments in
    ((t : ℕ) → ◌≢◌ {A = ℕ} 150 140 → get_claimed_payment_for_update 101 150 t ps' ≡ none)
    × (50 < 100
        → contains 101 (claim_reconciliation_batch (λ k. false) 20 50 150 110 20 50 ps').0 ≡ false)
lease_excludes_example =
    lease_excludes (λ k. false) (λ k. false) 10 40 140 100 20 40 20 50 150 110 20 50 101
      db_unknown.payments (unknown-IsSound.unique) claimed_one
