-- ===== src/Flow/Origin.antt =====
-- Where a status comes from: app/services and app/worker.
pub mod Transactions
use async_payment_processing.Prelude.{
  ℕ, ◌≡◌, refl, ap, ◌⊎◌, inl, inr, false, some, [], ◌∷◌, ◌++◌, arith, ◌==◌, Option-cases,
  Bool-cases, ==_iff, ok, err, Result,
}
use async_payment_processing.Schemas.{
  PaymentStatus, ProviderPaymentResponse, is_pending, is_terminal,
}
use async_payment_processing.Schemas.{ProviderPaymentStatus, PaymentStatus}
use async_payment_processing.Models.{Payment, OutboxEvent, Database}
use async_payment_processing.Models.Rows.{
  find, find_self, find-replace, find-append_one, find-map, replace,
}
use async_payment_processing.Repositories.Payments.{
  ids, claimed_rows, lease_row, claim_reconciliation_batch, renew_reconciliation_lease,
  get_claimed_payment_for_update,
}
use async_payment_processing.Repositories.Session.{
  Tx, commit, save, save_with_event, webhook_event, final_status,
}
use async_payment_processing.Services.Create.{insert_both}
use async_payment_processing.Services.Relay.{Broker, process_batch}
use async_payment_processing.Services.Relay.Delivery.{process_batch-marks}
use async_payment_processing.Services.Reconciliation.{
  Config, claim_batch, renew_claim, attempted, settled, persist_resolution,
}
use async_payment_processing.Worker.Payment.{resolved, mark_unknown, apply_provider_result}
use async_payment_processing.Worker.Webhook.{mark_sent}
use async_payment_processing.Flow.Rows.{save-eq, save_with_event-eq}
use async_payment_processing.Flow.Create.{insert_both-eq}
use async_payment_processing.Flow.Deliver.{mark_sent-db}
use async_payment_processing.Flow.Reconcile.{claimed-found}

-- What a provider's status means for the payment, apart from what the program makes of it.
abbrev pub meant_status : ProviderPaymentStatus → PaymentStatus
meant_status ProviderPaymentStatus.approved = PaymentStatus.succeeded
meant_status ProviderPaymentStatus.declined = PaymentStatus.failed

-- The row says what this response says.
abbrev pub Says : ProviderPaymentResponse → Payment → Type 0
Says r p = (p.status ≡ meant_status r.status) × (p.provider_payment_id ≡ some r.provider_payment_id)

-- The status is not final, or the row had it, or a response for this payment says it.
abbrev pub Origin : (ℕ → ProviderPaymentResponse → Type 0) → Database → ℕ → Payment → Type 0
Origin Given db k p' =
    (is_terminal p'.status ≡ false)
    ⊎ ((p : Payment) × (find k db.payments ≡ some p) × (p'.status ≡ p.status))
    ⊎ ((r : ProviderPaymentResponse) × Given k r × Says r p')

abbrev pub HasOrigins : (ℕ → ProviderPaymentResponse → Type 0) → Database → Database → Type 0
HasOrigins Given db db' =
    (k : ℕ) (p' : Payment) → find k db'.payments ≡ some p' → Origin Given db k p'

module _ (Given : ℕ → ProviderPaymentResponse → Type 0) (db : Database) where
  pub same-HasOrigins : HasOrigins Given db db
  same-HasOrigins k p f = inr (inl (p, f, refl))

  pub commit-HasOrigins {ℓ} :
      {A : Type ℓ} (tx : Tx) (a : A) (r : Result Database)
      → ((changed : Database) → r ≡ ok changed → HasOrigins Given db changed)
      → HasOrigins Given db (commit tx a r db).1
  unfolding commit
  commit-HasOrigins tx a (err e) new = same-HasOrigins
  commit-HasOrigins tx a (ok changed) new = elim (Bool-cases tx.alive) [
    | inl e ↦ rw e (new changed refl)
    | inr e ↦ rw e same-HasOrigins
  ]

  pub replace-HasOrigins :
      (db' : Database) (q : Payment)
      → Origin Given db q.id q
      → db'.payments ≡ replace q db.payments
      → HasOrigins Given db db'
  replace-HasOrigins db' q o e k p' f =
      let g : find k (replace q db.payments) ≡ some p' = rw e at f in
      elim (Bool-cases (q.id == k)) [
        | inl t ↦
            let same : q ≡ p' = ground (arith, find-replace k q db.payments, g) in
            rw (← same, ← (==_iff q.id k).0 t) o
        | inr t ↦ inr (inl (p', ground (arith, find-replace k q db.payments, g), refl))
      ]

  pub append-HasOrigins :
      (db' : Database) (q : Payment)
      → is_terminal q.status ≡ false
      → db'.payments ≡ db.payments ++ q ∷ []
      → HasOrigins Given db db'
  append-HasOrigins db' q idle e k p' f =
      let g : find k (db.payments ++ q ∷ []) ≡ some p' = rw e at f in
      elim (Option-cases (find k db.payments)) [
        | inl n ↦ inl (ground (arith, find-append_one k db.payments q, g, n))
        | inr (p, n) ↦ inr (inl (p, n, ground (arith, find-append_one k db.payments q, g, n)))
      ]

  -- One row is written back, with or without an event.
  pub saved-HasOrigins :
      {A : Type 0} (tx : Tx) (a : A) (q : Payment)
      → Origin Given db q.id (record q { updated_at = tx.db_now })
      → HasOrigins Given db (commit tx a (save tx q db) db).1
  saved-HasOrigins tx a q o = commit-HasOrigins tx a (save tx q db) (λ changed c.
      replace-HasOrigins changed (record q { updated_at = tx.db_now }) o
        (ap (λ (d : Database). d.payments) (save-eq tx q db changed c)))

  pub announced-HasOrigins :
      {A : Type 0} (tx : Tx) (a : A) (q : Payment) (e : OutboxEvent)
      → Origin Given db q.id (record q { updated_at = tx.db_now })
      → HasOrigins Given db (commit tx a (save_with_event tx q e db) db).1
  announced-HasOrigins tx a q e o = commit-HasOrigins tx a (save_with_event tx q e db) (λ changed c.
      replace-HasOrigins changed (record q { updated_at = tx.db_now }) o
        (ap (λ (d : Database). d.payments) (save_with_event-eq tx q e db changed c)))
