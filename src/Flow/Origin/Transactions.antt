-- ===== src/Flow/Origin/Transactions.antt =====
-- The origin of each status after each transaction: app/services and app/worker.
use async_payment_processing.Prelude.{
  ℕ, ◌+◌, ◌-◌, ◌≡◌, refl, ap, inl, inr, Bool, true, false, Option, none, some, List, map, arith,
  Option-cases, Bool-cases, ok, Result-cases,
}
use async_payment_processing.Schemas.{
  PaymentStatus, ProviderPaymentResponse, is_pending, is_terminal,
}
use async_payment_processing.Models.{Payment, OutboxEvent, Database}
use async_payment_processing.Models.Rows.{find, find-id, find_self, find-map, replace}
use async_payment_processing.Repositories.Payments.{
  ids, claimed_rows, lease_row, claim_reconciliation_batch, renew_reconciliation_lease,
  get_claimed_payment_for_update,
}
use async_payment_processing.Repositories.Session.{Tx, commit, webhook_event}
use async_payment_processing.Services.Create.{insert_both}
use async_payment_processing.Services.Relay.{Broker, process_batch}
use async_payment_processing.Services.Relay.Delivery.{process_batch-marks}
use async_payment_processing.Services.Reconciliation.{
  Config, claim_batch, renew_claim, attempted, settled, persist_resolution,
}
use async_payment_processing.Worker.Payment.{resolved, mark_unknown, apply_provider_result}
use async_payment_processing.Worker.Webhook.{mark_sent}
use async_payment_processing.Flow.Create.{insert_both-eq}
use async_payment_processing.Flow.Deliver.{mark_sent-db}
use async_payment_processing.Flow.Reconcile.{claimed-found}
use async_payment_processing.Flow.Origin.{
  HasOrigins, same-HasOrigins, commit-HasOrigins, replace-HasOrigins, append-HasOrigins,
  saved-HasOrigins, announced-HasOrigins,
}

module _ (Given : ℕ → ProviderPaymentResponse → Type 0) (db : Database) where
  pub insert-HasOrigins :
      (tx : Tx) (p : Payment) (e : OutboxEvent)
      → is_terminal p.status ≡ false
      → HasOrigins Given db (commit {0} tx tt (insert_both p e db) db).1
  insert-HasOrigins tx p e idle =
      commit-HasOrigins Given db tx tt (insert_both p e db) (λ changed c.
        append-HasOrigins Given db changed p idle
          (ap (λ (d : Database). d.payments) (insert_both-eq p e db changed c).1))

  pub mark_unknown-HasOrigins : (tx : Tx) (k : ℕ) → HasOrigins Given db (mark_unknown tx k db).1
  unfolding mark_unknown
  mark_unknown-HasOrigins tx k = elim (Option-cases (find k db.payments)) [
    | inl e ↦ rw e (same-HasOrigins Given db)
    | inr (p, e) ↦ elim (Bool-cases (is_pending p.status)) [
      | inl t ↦
          rw (e, t)
            (saved-HasOrigins Given db tx tt (record p { status = PaymentStatus.unknown })
              (inl refl))
      | inr t ↦ rw (e, t) (same-HasOrigins Given db)
    ]
  ]

  pub apply_provider_result-HasOrigins :
      (tx : Tx) (k : ℕ) (response : ProviderPaymentResponse)
      → Given k response
      → HasOrigins Given db (apply_provider_result tx k response db).1
  unfolding apply_provider_result
  apply_provider_result-HasOrigins tx k response given = elim (Option-cases (find k db.payments)) [
    | inl e ↦ rw e (same-HasOrigins Given db)
    | inr (p, e) ↦ elim (Bool-cases (is_pending p.status)) [
      | inl t ↦
          rw (e, t)
            (announced-HasOrigins Given db tx tt (resolved tx.now tx.uuid response p)
              (webhook_event tx.uuid p.id tx.now tx.now)
              (inr (inr (response, rw (find-id k db.payments p e) given, (refl, refl)))))
      | inr t ↦ rw (e, t) (same-HasOrigins Given db)
    ]
  ]

  pub mark_sent-HasOrigins :
      (tx : Tx) (k event_id : ℕ) → HasOrigins Given db (mark_sent tx k event_id db).1
  mark_sent-HasOrigins tx k event_id = elim (mark_sent-db tx k event_id db) [
    | inl same ↦ rw same (same-HasOrigins Given db)
    | inr (p, e, fresh, final, same) ↦ rw same (
        saved-HasOrigins Given db tx tt (record p { webhook_sent_at = some tx.now })
          (inr (inl (p, find_self k db.payments p e, refl))))
  ]

  pub relay-HasOrigins :
      (broker : Broker) (tx : Tx) (locked : ℕ → Bool) (batch_size : ℕ)
      → HasOrigins Given db (process_batch broker tx locked batch_size db).2
  relay-HasOrigins broker tx locked batch_size =
      let (fails, works) = process_batch-marks broker tx locked batch_size db in
      elim (Result-cases (process_batch broker tx locked batch_size db).1) [
        | inl (x, e) ↦ rw (fails x e) (same-HasOrigins Given db)
        | inr (n, e) ↦
            let (batch, q, len, d, same) = works n e in rw same (λ k p f. inr (inl (p, f, refl)))
      ]

  module _ (c : Config) (tx : Tx) where
    pub claim_batch-HasOrigins :
        (locked : ℕ → Bool) → HasOrigins Given db (claim_batch c tx locked db).1
    unfolding claim_batch claim_reconciliation_batch
    claim_batch-HasOrigins locked =
        commit-HasOrigins Given db tx _ _ (λ changed e. leased changed e)
      where
        claimed : List ℕ
        claimed = ids (claimed_rows locked (tx.now - c.stale_after) tx.now c.batch_size db.payments)

        lease : Payment → Payment
        lease = lease_row claimed tx.db_now tx.uuid (tx.now + c.lease_time)

        leased :
            (changed : Database)
            → ok (record db { payments = map lease db.payments }) ≡ ok changed
            → HasOrigins Given db changed
        leased changed e =
            let eq : changed ≡ record db { payments = map lease db.payments } = cc in
            rw eq (λ k p' f.
              let (p, g, same) = find-map lease (λ q. ground arith) k db.payments p' f in
              inr (inl (p, g, ground arith)))

    renewed-payments :
        (changed : Database) (p' : Payment)
        → ok (record db { payments = replace p' db.payments }) ≡ ok changed
        → changed.payments ≡ replace p' db.payments
    renewed-payments changed p' q = ground arith

    abbrev renewed : Payment → Payment
    renewed p = record p {
      reconciliation_lease_until = some (tx.now + c.lease_time);
      updated_at = tx.db_now;
    }

    pub renew_claim-HasOrigins : (k token : ℕ) → HasOrigins Given db (renew_claim c tx k token db).1
    unfolding renew_claim renew_reconciliation_lease
    renew_claim-HasOrigins k token =
        elim (Option-cases (get_claimed_payment_for_update k token tx.now db.payments)) [
          | inl e ↦ rw e (same-HasOrigins Given db)
          | inr (p, e) ↦
              let f = (claimed-found k token tx.now db.payments p e).0 in
              rw e (
                commit-HasOrigins Given db tx true _ (λ changed q.
                  replace-HasOrigins Given db changed (renewed p)
                    (inr (inl (p, find_self k db.payments p f, refl)))
                    (renewed-payments changed (renewed p) q)))
        ]

    pub persist_resolution-HasOrigins :
        (processed_at k token : ℕ) (response : Option ProviderPaymentResponse)
        → ((r : ProviderPaymentResponse) → response ≡ some r → Given k r)
        → HasOrigins Given db (persist_resolution c tx processed_at k token response db).1
    unfolding persist_resolution
    persist_resolution-HasOrigins processed_at k token none given =
        elim (Option-cases (get_claimed_payment_for_update k token tx.now db.payments)) [
          | inl e ↦ rw e (same-HasOrigins Given db)
          | inr (p, e) ↦
              let f = (claimed-found k token tx.now db.payments p e).0 in
              rw e (
                saved-HasOrigins Given db tx false (attempted c.max_attempts p)
                  (inr (inl (p, find_self k db.payments p f, refl))))
        ]
    persist_resolution-HasOrigins processed_at k token (some response) given =
        elim (Option-cases (get_claimed_payment_for_update k token tx.now db.payments)) [
          | inl e ↦ rw e (same-HasOrigins Given db)
          | inr (p, e) ↦
              let f = (claimed-found k token tx.now db.payments p e).0 in
              rw e (
                announced-HasOrigins Given db tx true (settled processed_at tx.uuid response p)
                  (webhook_event tx.uuid p.id processed_at tx.db_now)
                  (inr (
                    inr (
                      response,
                      rw (find-id k db.payments p f) (given response refl),
                      (refl, refl),
                    ))))
        ]
