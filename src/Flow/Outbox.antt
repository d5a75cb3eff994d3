-- ===== src/Flow/Outbox.antt =====
-- What each transaction adds to the outbox: app/services and app/worker.
use async_payment_processing.Prelude.{
  ℕ, ◌≡◌, refl, inl, inr, Bool, true, false, Option, none, some, Option-cases, Bool-cases, ok, err,
  Result, ap, ◌⊎◌, [], ◌∷◌, ◌++◌, arith,
}
use async_payment_processing.Schemas.{
  PaymentStatus, ProviderPaymentResponse, is_pending, validate_envelope,
}
use async_payment_processing.Models.{Payment, OutboxEvent, Database}
use async_payment_processing.Repositories.Outbox.{has_event, add_event}
use async_payment_processing.Models.Rows.{find}
use async_payment_processing.Repositories.Payments.{update, add}
use async_payment_processing.Repositories.Payments.{
  claim_reconciliation_batch, renew_reconciliation_lease, get_claimed_payment_for_update,
}
use async_payment_processing.Repositories.Session.{Tx, commit, save, save_with_event, webhook_event}
use async_payment_processing.Services.Create.{insert_both, process_requested_event, new_payment}
use async_payment_processing.Services.Relay.{Broker, process_batch}
use async_payment_processing.Services.Relay.Marks.{IsEnvelope}
use async_payment_processing.Services.Reconciliation.{
  Config, claim_batch, renew_claim, attempted, settled, persist_resolution,
}
use async_payment_processing.Worker.Payment.{resolved, mark_unknown, apply_provider_result}
use async_payment_processing.Worker.Webhook.{mark_sent}
use async_payment_processing.Flow.Rows.{save-eq, save_with_event-eq}
use async_payment_processing.Flow.Create.{insert_both-eq}
use async_payment_processing.Flow.Deliver.{mark_sent-db}
use async_payment_processing.Flow.Reach.{
  Step, insert, set_unknown, apply, set_sent, relay, claim, renew, persist,
}

requested-IsEnvelope :
    (event_id at : ℕ) (p : Payment) → IsEnvelope (process_requested_event event_id at p)
unfolding validate_envelope
requested-IsEnvelope event_id at p = (_, refl, refl, refl, refl)

webhook-IsEnvelope :
    (event_id payment_id at created : ℕ) → IsEnvelope (webhook_event event_id payment_id at created)
unfolding validate_envelope
webhook-IsEnvelope event_id payment_id at created = (_, refl, refl, refl, refl)

-- The outbox is the same, or one unpublished event was added to it, under an id that no other has.
abbrev pub HasGrown : Database → Database → Type 0
HasGrown db u =
    (u.outbox ≡ db.outbox)
    ⊎ ((e : OutboxEvent) × (u.outbox ≡ db.outbox ++ e ∷ [])
        × (has_event e.id db.outbox ≡ false)
        × (e.published_at ≡ none)
        × IsEnvelope e)

save_with_event-fresh :
    (tx : Tx) (p : Payment) (e : OutboxEvent) (db changed : Database)
    → save_with_event tx p e db ≡ ok changed
    → has_event e.id db.outbox ≡ false
unfolding save_with_event update add_event
save_with_event-fresh tx p e db changed h = ground arith

insert_both-fresh :
    (p : Payment) (e : OutboxEvent) (db changed : Database)
    → insert_both p e db ≡ ok changed
    → has_event e.id db.outbox ≡ false
unfolding insert_both add add_event
insert_both-fresh p e db changed h = ground arith

module _ (db : Database) where
  commit-HasGrown {ℓ} :
      {A : Type ℓ} (tx : Tx) (x : A) (r : Result Database)
      → ((changed : Database) → r ≡ ok changed → HasGrown db changed)
      → HasGrown db (commit tx x r db).1
  unfolding commit
  commit-HasGrown tx x (err e) new = (inl refl)
  commit-HasGrown tx x (ok changed) new = elim (Bool-cases tx.alive) [
    | inl e ↦ rw e (new changed refl)
    | inr e ↦ rw e (inl refl)
  ]

  saved-HasGrown :
      {A : Type 0} (tx : Tx) (x : A) (q : Payment) → HasGrown db (commit tx x (save tx q db) db).1
  saved-HasGrown tx x q =
      commit-HasGrown tx x (save tx q db) (λ changed c. rw (save-eq tx q db changed c) (inl refl))

  announced-HasGrown :
      {A : Type 0} (tx : Tx) (x : A) (q : Payment) (event_id at created : ℕ)
      → HasGrown db
          (commit tx x (save_with_event tx q (webhook_event event_id q.id at created) db) db).1
  announced-HasGrown tx x q event_id at created =
      let e = webhook_event event_id q.id at created in
      commit-HasGrown tx x (save_with_event tx q e db) (λ changed c. inr (
        e,
        ap (λ (d : Database). d.outbox) (save_with_event-eq tx q e db changed c),
        save_with_event-fresh tx q e db changed c,
        refl,
        webhook-IsEnvelope event_id q.id at created,
      ))

  insert-HasGrown :
      (tx : Tx) (p : Payment) (event_id : ℕ)
      → HasGrown db
          (commit {0} tx tt (insert_both p (process_requested_event event_id tx.now p) db) db).1
  insert-HasGrown tx p event_id =
      let e = process_requested_event event_id tx.now p in
      commit-HasGrown {0} tx tt (insert_both p e db) (λ changed c. inr (
        e,
        ap (λ (d : Database). d.outbox) (insert_both-eq p e db changed c).1,
        insert_both-fresh p e db changed c,
        refl,
        requested-IsEnvelope event_id tx.now p,
      ))

  mark_unknown-HasGrown : (tx : Tx) (k : ℕ) → HasGrown db (mark_unknown tx k db).1
  unfolding mark_unknown
  mark_unknown-HasGrown tx k = elim (Option-cases (find k db.payments)) [
    | inl e ↦ rw e (inl refl)
    | inr (p, e) ↦ elim (Bool-cases (is_pending p.status)) [
      | inl t ↦ rw (e, t) (saved-HasGrown tx tt (record p { status = PaymentStatus.unknown }))
      | inr t ↦ rw (e, t) (inl refl)
    ]
  ]

  apply-HasGrown :
      (tx : Tx) (k : ℕ) (r : ProviderPaymentResponse)
      → HasGrown db (apply_provider_result tx k r db).1
  unfolding apply_provider_result
  apply-HasGrown tx k r = elim (Option-cases (find k db.payments)) [
    | inl e ↦ rw e (inl refl)
    | inr (p, e) ↦ elim (Bool-cases (is_pending p.status)) [
      | inl t ↦
          rw (e, t) (announced-HasGrown tx tt (resolved tx.now tx.uuid r p) tx.uuid tx.now tx.now)
      | inr t ↦ rw (e, t) (inl refl)
    ]
  ]

  mark_sent-HasGrown : (tx : Tx) (k event_id : ℕ) → HasGrown db (mark_sent tx k event_id db).1
  mark_sent-HasGrown tx k event_id = elim (mark_sent-db tx k event_id db) [
    | inl same ↦ rw same (inl refl)
    | inr (p, e, fresh, final, same) ↦
        rw same (saved-HasGrown tx tt (record p { webhook_sent_at = some tx.now }))
  ]

  module _ (c : Config) (tx : Tx) where
    claim_batch-HasGrown : (locked : ℕ → Bool) → HasGrown db (claim_batch c tx locked db).1
    unfolding claim_batch claim_reconciliation_batch commit
    claim_batch-HasGrown locked = elim (Bool-cases tx.alive) [
      | inl up ↦ rw up (inl refl)
      | inr down ↦ rw down (inl refl)
    ]

    renew_claim-HasGrown : (k token : ℕ) → HasGrown db (renew_claim c tx k token db).1
    unfolding renew_claim renew_reconciliation_lease commit
    renew_claim-HasGrown k token =
        elim (Option-cases (get_claimed_payment_for_update k token tx.now db.payments)) [
          | inl e ↦ rw e (inl refl)
          | inr (p, e) ↦ elim (Bool-cases tx.alive) [
            | inl up ↦ rw (e, up) (inl refl)
            | inr down ↦ rw (e, down) (inl refl)
          ]
        ]

    persist_resolution-HasGrown :
        (processed_at k token : ℕ) (response : Option ProviderPaymentResponse)
        → HasGrown db (persist_resolution c tx processed_at k token response db).1
    unfolding persist_resolution
    persist_resolution-HasGrown processed_at k token none =
        elim (Option-cases (get_claimed_payment_for_update k token tx.now db.payments)) [
          | inl e ↦ rw e (inl refl)
          | inr (p, e) ↦ rw e (saved-HasGrown tx false (attempted c.max_attempts p))
        ]
    persist_resolution-HasGrown processed_at k token (some r) =
        elim (Option-cases (get_claimed_payment_for_update k token tx.now db.payments)) [
          | inl e ↦ rw e (inl refl)
          | inr (p, e) ↦ rw e (
              announced-HasGrown tx true (settled processed_at tx.uuid r p) tx.uuid processed_at
                tx.db_now)
        ]

-- Any transaction but that of the relay, which marks events.
abbrev pub IsLocal : {c : Config} {t u : Database} → Step c t u → Type 0
IsLocal (relay broker tx locked size) = ⊥
IsLocal _ = Unit

pub Step-HasGrown : {c : Config} {t u : Database} (st : Step c t u) → IsLocal st → HasGrown t u
Step-HasGrown {c} {t} (insert tx event_id d key fingerprint valid) own =
    insert-HasGrown t tx (new_payment tx d key fingerprint) event_id
Step-HasGrown {c} {t} (set_unknown tx k) own = mark_unknown-HasGrown t tx k
Step-HasGrown {c} {t} (apply tx k r) own = apply-HasGrown t tx k r
Step-HasGrown {c} {t} (set_sent tx k event_id) own = mark_sent-HasGrown t tx k event_id
Step-HasGrown {c} {t} (relay broker tx locked size) own = absurd own
Step-HasGrown {c} {t} (claim tx locked) own = claim_batch-HasGrown t c tx locked
Step-HasGrown {c} {t} (renew tx k token) own = renew_claim-HasGrown t c tx k token
Step-HasGrown {c} {t} (persist tx at k token r) own =
    persist_resolution-HasGrown t c tx at k token r

pub IsLocal-cases :
    {c : Config} {t u : Database} (st : Step c t u)
    → IsLocal st
      ⊎ ((broker : Broker) × (tx : Tx) × (locked : ℕ → Bool) × (batch_size : ℕ) × (u
            ≡ (process_batch broker tx locked batch_size t).2))
IsLocal-cases (relay broker tx locked size) = inr (broker, tx, locked, size, refl)
IsLocal-cases (insert tx event_id d key fingerprint valid) = inl tt
IsLocal-cases (set_unknown tx k) = inl tt
IsLocal-cases (apply tx k r) = inl tt
IsLocal-cases (set_sent tx k event_id) = inl tt
IsLocal-cases (claim tx locked) = inl tt
IsLocal-cases (renew tx k token) = inl tt
IsLocal-cases (persist tx at k token r) = inl tt
