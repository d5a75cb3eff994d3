-- ===== src/Flow/Progress.antt =====
-- The rows before and after a transaction: app/services and app/worker.
use async_payment_processing.Prelude.{
  ℕ, ◌+◌, ◌-◌, ◌≡◌, ap, ◌∙◌, inl, inr, Bool, true, false, Option, none, some, List, map, arith,
  Option-cases, Bool-cases, ok, Result-cases,
}
use async_payment_processing.Schemas.{PaymentStatus, ProviderPaymentResponse, is_pending}
use async_payment_processing.Models.{Payment, OutboxEvent, Database}
use async_payment_processing.Models.Rows.{find, find_self, find-map-some, replace}
use async_payment_processing.Repositories.Payments.{
  ids, claimed_rows, lease_row, claim_reconciliation_batch, renew_reconciliation_lease,
  get_claimed_payment_for_update,
}
use async_payment_processing.Repositories.Session.{Tx, commit, save, save_with_event, webhook_event}
use async_payment_processing.Services.Create.{insert_both}
use async_payment_processing.Services.Relay.{Broker, process_batch}
use async_payment_processing.Services.Relay.Delivery.{process_batch-marks}
use async_payment_processing.Services.Reconciliation.{
  Config, claim_batch, renew_claim, attempted, settled, persist_resolution,
}
use async_payment_processing.Worker.Payment.{resolved, mark_unknown, apply_provider_result}
use async_payment_processing.Worker.Webhook.{mark_sent}
use async_payment_processing.Flow.Rows.{save-eq, save_with_event-eq}
use async_payment_processing.Flow.Create.{insert_both-eq}
use async_payment_processing.Flow.Deliver.{mark_sent-db}
use async_payment_processing.Flow.Reconcile.{claimed-found}
use async_payment_processing.Flow.Later.{
  IsLater, Advances, Advances-refl, replace-Advances, append-Advances, commit-Advances,
}

-- Writing back a found row, with or without an event.
module _ (tx : Tx) (k : ℕ) (db : Database) (p q : Payment)
    (found : find k db.payments ≡ some p) where
  save-Advances :
      {A : Type 0} (a : A)
      → IsLater p (record q { updated_at = tx.db_now })
      → Advances db (commit tx a (save tx q db) db).1
  save-Advances a l = commit-Advances tx a (save tx q db) db (λ changed c.
      replace-Advances db changed p (record q { updated_at = tx.db_now }) (own l) l
        (ap (λ (d : Database). d.payments) (save-eq tx q db changed c)))
    where
      own : IsLater p (record q { updated_at = tx.db_now }) → find q.id db.payments ≡ some p
      own l = ap (λ j. find j db.payments) l.same_id ∙ find_self k db.payments p found

  save_with_event-Advances :
      {A : Type 0} (a : A) (e : OutboxEvent)
      → IsLater p (record q { updated_at = tx.db_now })
      → Advances db (commit tx a (save_with_event tx q e db) db).1
  save_with_event-Advances a e l = commit-Advances tx a (save_with_event tx q e db) db (λ changed c.
      replace-Advances db changed p (record q { updated_at = tx.db_now })
        (ap (λ j. find j db.payments) l.same_id ∙ find_self k db.payments p found) l
        (ap (λ (d : Database). d.payments) (save_with_event-eq tx q e db changed c)))

pub insert-Advances :
    (tx : Tx) (p : Payment) (e : OutboxEvent) (db : Database)
    → Advances db (commit {0} tx tt (insert_both p e db) db).1
insert-Advances tx p e db = commit-Advances tx tt (insert_both p e db) db (λ changed c.
    append-Advances db changed p
      (ap (λ (d : Database). d.payments) (insert_both-eq p e db changed c).1))

pub mark_unknown-Advances : (tx : Tx) (k : ℕ) (db : Database) → Advances db (mark_unknown tx k db).1
unfolding mark_unknown
mark_unknown-Advances tx k db = elim (Option-cases (find k db.payments)) [
  | inl e ↦ rw e (Advances-refl db)
  | inr (p, e) ↦ elim (Bool-cases (is_pending p.status)) [
    | inl t ↦
        rw (e, t)
          (save-Advances tx k db p (record p { status = PaymentStatus.unknown }) e tt
            (ground arith))
    | inr t ↦ rw (e, t) (Advances-refl db)
  ]
]

pub apply_provider_result-Advances :
    (tx : Tx) (k : ℕ) (response : ProviderPaymentResponse) (db : Database)
    → Advances db (apply_provider_result tx k response db).1
unfolding apply_provider_result
apply_provider_result-Advances tx k response db = elim (Option-cases (find k db.payments)) [
  | inl e ↦ rw e (Advances-refl db)
  | inr (p, e) ↦ elim (Bool-cases (is_pending p.status)) [
    | inl t ↦
        rw (e, t)
          (save_with_event-Advances tx k db p (resolved tx.now tx.uuid response p) e tt
            (webhook_event tx.uuid p.id tx.now tx.now) (ground arith))
    | inr t ↦ rw (e, t) (Advances-refl db)
  ]
]

pub mark_sent-Advances :
    (tx : Tx) (k event_id : ℕ) (db : Database) → Advances db (mark_sent tx k event_id db).1
mark_sent-Advances tx k event_id db = elim (mark_sent-db tx k event_id db) [
  | inl same ↦ rw same (Advances-refl db)
  | inr (p, e, fresh, final, same) ↦
      rw same
        (save-Advances tx k db p (record p { webhook_sent_at = some tx.now }) e tt (ground arith))
]

pub relay-Advances :
    (broker : Broker) (tx : Tx) (locked : ℕ → Bool) (batch_size : ℕ) (db : Database)
    → Advances db (process_batch broker tx locked batch_size db).2
relay-Advances broker tx locked batch_size db =
    let (fails, works) = process_batch-marks broker tx locked batch_size db in
    elim (Result-cases (process_batch broker tx locked batch_size db).1) [
      | inl (x, e) ↦ rw (fails x e) (Advances-refl db)
      | inr (n, e) ↦ let (batch, q, len, d, same) = works n e in rw same (Advances-refl db)
    ]

module _ (c : Config) (tx : Tx) where
  pub claim_batch-Advances :
      (locked : ℕ → Bool) (db : Database) → Advances db (claim_batch c tx locked db).1
  unfolding claim_batch claim_reconciliation_batch
  claim_batch-Advances locked db =
      commit-Advances tx _ _ db (λ changed e k p f. leased changed e k p f)
    where
      claimed : List ℕ
      claimed = ids (claimed_rows locked (tx.now - c.stale_after) tx.now c.batch_size db.payments)

      lease : Payment → Payment
      lease = lease_row claimed tx.db_now tx.uuid (tx.now + c.lease_time)

      leased :
          (changed : Database)
          → ok (record db { payments = map lease db.payments }) ≡ ok changed
          → Advances db changed
      leased changed e k p f =
          let eq : changed ≡ record db { payments = map lease db.payments } = cc in
          rw eq (lease p, find-map-some lease (λ q. ground arith) k db.payments p f, ground arith)

  renewed-payments :
      (db changed : Database) (p' : Payment)
      → ok (record db { payments = replace p' db.payments }) ≡ ok changed
      → changed.payments ≡ replace p' db.payments
  renewed-payments db changed p' q = ground arith

  pub renew_claim-Advances :
      (k token : ℕ) (db : Database) → Advances db (renew_claim c tx k token db).1
  unfolding renew_claim renew_reconciliation_lease
  renew_claim-Advances k token db =
      elim (Option-cases (get_claimed_payment_for_update k token tx.now db.payments)) [
        | inl e ↦ rw e (Advances-refl db)
        | inr (p, e) ↦
            let (f, t) = claimed-found k token tx.now db.payments p e in
            rw e (
              commit-Advances tx true _ db (λ changed q.
                let p' : Payment = record p {
                  reconciliation_lease_until = some (tx.now + c.lease_time);
                  updated_at = tx.db_now;
                } in
                replace-Advances db changed p p' (find_self k db.payments p f) (ground arith)
                  (renewed-payments db changed p' q)))
      ]

  pub persist_resolution-Advances :
      (processed_at k token : ℕ) (response : Option ProviderPaymentResponse) (db : Database)
      → Advances db (persist_resolution c tx processed_at k token response db).1
  unfolding persist_resolution
  persist_resolution-Advances processed_at k token none db =
      elim (Option-cases (get_claimed_payment_for_update k token tx.now db.payments)) [
        | inl e ↦ rw e (Advances-refl db)
        | inr (p, e) ↦
            let (f, t) = claimed-found k token tx.now db.payments p e in
            rw e (save-Advances tx k db p (attempted c.max_attempts p) f false (ground arith))
      ]
  persist_resolution-Advances processed_at k token (some response) db =
      elim (Option-cases (get_claimed_payment_for_update k token tx.now db.payments)) [
        | inl e ↦ rw e (Advances-refl db)
        | inr (p, e) ↦
            let (f, t) = claimed-found k token tx.now db.payments p e in
            rw e (
              save_with_event-Advances tx k db p (settled processed_at tx.uuid response p) f true
                (webhook_event tx.uuid p.id processed_at tx.db_now) (ground arith))
      ]
