-- ===== src/Flow/Resolved.antt =====
-- What one turn of the reconciliation does for a payment that it has claimed:
-- app/services/payment_reconciliation.py.
use async_payment_processing.Prelude.{
  ℕ, ◌+◌, ◌<◌, ◌≡◌, refl, true, false, Option, none, some, [], ◌∷◌, ◌++◌, arith, ok, ◌∙◌, ap, ◌⊎◌,
  inl, inr, leb, err, provider_permanent, provider_unavailable, provider_ambiguous_outcome,
}
use async_payment_processing.Breaker.{Breaker, State}
use async_payment_processing.Schemas.{ProviderPaymentResponse}
use async_payment_processing.Models.{Payment, Database}
use async_payment_processing.Models.Rows.{find, find-replace, find-id}
use async_payment_processing.Repositories.Payments.{
  is_claimed_by, get_claimed_payment_for_update, renew_reconciliation_lease, clashes_other, update,
}
use async_payment_processing.Repositories.Outbox.{has_event, add_event}
use async_payment_processing.Repositories.Session.{Tx, commit, save, save_with_event, webhook_event}
use async_payment_processing.Services.Reconciliation.{
  Config, Env, renew_claim, reconcile_one, persist_resolution, caught_lookup, attempted, settled,
}
use async_payment_processing.Flow.Complete.{
  row_with_answer, webhook_envelope, event_with, final_status-meant, closed-call,
}

abbrev pub renewed_row : Config → Env → Payment → Payment
renewed_row c env p = record p {
  reconciliation_lease_until = some (env.renew_tx.now + c.lease_time);
  updated_at = env.renew_tx.db_now;
}

-- The row after an answer, and after a lookup that gave none, field by field; both give the lease back.
abbrev pub row_released : Payment → Payment
row_released q = record q { reconciliation_lease_token = none; reconciliation_lease_until = none }

abbrev pub row_answered : ℕ → ℕ → ProviderPaymentResponse → Payment → Payment
row_answered at event_id response q = row_released (row_with_answer at event_id response q)

abbrev pub row_attempted : ℕ → Payment → Payment
row_attempted max_attempts q = record (row_released q) {
  reconciliation_attempts = q.reconciliation_attempts + 1;
  requires_manual_review = leb max_attempts (q.reconciliation_attempts + 1);
}

settled-answered :
    (at event_id : ℕ) (response : ProviderPaymentResponse) (q : Payment)
    → settled at event_id response q ≡ row_answered at event_id response q
settled-answered at event_id response q =
    ap (λ s. record (row_answered at event_id response q) { status = s })
      (final_status-meant response.status)

attempted-counted :
    (max_attempts : ℕ) (q : Payment)
    → q.requires_manual_review ≡ false
    → attempted max_attempts q ≡ row_attempted max_attempts q
attempted-counted max_attempts q r = rw r (ground arith)

-- A turn for a payment under a running lease in which the server is there, the breaker is closed, the
-- provider's answer comes before the renewed lease ends, and others leave the row alone.
pub record IsLeased (c : Config) (env : Env) (k token : ℕ) (db : Database) (b : Breaker)
    (p : Payment) : Type 0 where
  pub found : find k db.payments ≡ some p
  pub claimed : is_claimed_by token env.renew_tx.now p ≡ true
  pub renews : env.renew_tx.alive ≡ true
  pub found_later :
      find k (env.others (renew_claim c env.renew_tx k token db).1).payments
      ≡ some (renewed_row c env p)
  pub in_time : env.persist_tx.now < env.renew_tx.now + c.lease_time
  pub persists : env.persist_tx.alive ≡ true
  pub closed : b.state ≡ State.closed

module _ (c : Config) (tx : Tx) (processed_at k token : ℕ) (db : Database) (q : Payment)
    (holds : get_claimed_payment_for_update k token tx.now db.payments ≡ some q)
    (found : find k db.payments ≡ some q) (up : tx.alive ≡ true) where
  persist_resolution-settles :
      (response : ProviderPaymentResponse)
      → clashes_other (settled processed_at tx.uuid response q) db.payments ≡ false
      → has_event tx.uuid db.outbox ≡ false
      → let (result, db') = persist_resolution c tx processed_at k token (some response) db in
        (result ≡ ok true)
        × (find k db'.payments
            ≡ some (record (settled processed_at tx.uuid response q) { updated_at = tx.db_now }))
        × (db'.outbox ≡ db.outbox ++ webhook_event tx.uuid k processed_at tx.db_now ∷ [])
  unfolding persist_resolution save_with_event update add_event commit
  persist_resolution-settles response free fresh =
      let same = find-id k db.payments q found in
      rw (holds, free, fresh, up)
        (
          refl,
          ground (
            arith,
            same,
            found,
            find-replace k
                (record (settled processed_at tx.uuid response q) { updated_at = tx.db_now })
                db.payments,
          ),
          rw same,
        )

  persist_resolution-counts :
      clashes_other (attempted c.max_attempts q) db.payments ≡ false
      → let (result, db') = persist_resolution c tx processed_at k token none db in
        (result ≡ ok false)
        × (find k db'.payments
            ≡ some (record (attempted c.max_attempts q) { updated_at = tx.db_now }))
        × (db'.outbox ≡ db.outbox)
  unfolding persist_resolution save update commit
  persist_resolution-counts free =
      let same = find-id k db.payments q found in
      rw (holds, free, up)
        (
          refl,
          ground (
            arith,
            same,
            found,
            find-replace k (record (attempted c.max_attempts q) { updated_at = tx.db_now })
                db.payments,
          ),
          refl,
        )

module _ (c : Config) (env : Env) (k token : ℕ) (db : Database) (b : Breaker) (p : Payment)
    (h : IsLeased c env k token db b p) where
  renews : (renew_claim c env.renew_tx k token db).0 ≡ ok true
  unfolding renew_claim renew_reconciliation_lease get_claimed_payment_for_update commit
  renews = rw (h.found, h.claimed, h.renews) refl

  holds :
      get_claimed_payment_for_update k token env.persist_tx.now
        (env.others (renew_claim c env.renew_tx k token db).1).payments
      ≡ some (renewed_row c env p)
  unfolding get_claimed_payment_for_update
  holds = rw h.found_later (ground (arith, h.claimed, h.in_time))

  reconcile_one-persists :
      (response : Option ProviderPaymentResponse)
      → caught_lookup env.lookup ≡ ok response
      → let (result, db', b') = reconcile_one c env k token db b in
        let (result', db'') =
          persist_resolution c env.persist_tx env.processed_at k token response
            (env.others (renew_claim c env.renew_tx k token db).1) in
        (result ≡ result') × (db' ≡ db'')
  unfolding reconcile_one
  reconcile_one-persists response a =
      let calls = closed-call env.started env.ended env.lookup env.other_calls b h.closed in
      rw (renews, calls, a) (refl, refl)

-- A turn that is not disturbed gets on with its payment, if the rows written clash with no other and the
-- id of the new event is not taken. If the provider answers, the row is succeeded if the provider has
-- approved and failed if it has declined, holds the provider's id, the date and the id of exactly one
-- new event in the outbox, the first delivery of the webhook, and gives its lease back. If the provider
-- does not know the payment or the lookup fails in one of the ways that the client names, exactly one
-- more attempt is counted, the lease is given back, manual review is asked for exactly when the
-- attempts are used up, and the outbox is as it was.
pub reconcile_one-resolves :
    (c : Config) (env : Env) (k token : ℕ) (db : Database) (b : Breaker) (p : Payment)
    → IsLeased c env k token db b p
    → let q = renewed_row c env p in
      let t = env.others (renew_claim c env.renew_tx k token db).1 in
      let (result, db', b') = reconcile_one c env k token db b in
      ((response : ProviderPaymentResponse)
        → env.lookup ≡ ok (some response)
        → let row = row_answered env.processed_at env.persist_tx.uuid response q in
          let told = webhook_envelope env.persist_tx.uuid k env.processed_at in
          (clashes_other row t.payments ≡ false)
          → has_event env.persist_tx.uuid t.outbox ≡ false
          → (result ≡ ok true)
            × (find k db'.payments ≡ some (record row { updated_at = env.persist_tx.db_now }))
            × (db'.outbox ≡ t.outbox ++ event_with told env.persist_tx.db_now ∷ []))
      × ((env.lookup ≡ ok none)
            ⊎ (env.lookup ≡ err provider_unavailable)
            ⊎ (env.lookup ≡ err provider_ambiguous_outcome)
            ⊎ ((code : ℕ) × (env.lookup ≡ err (provider_permanent code)))
          → clashes_other (row_attempted c.max_attempts q) t.payments ≡ false
          → (result ≡ ok false)
            × (find k db'.payments
                ≡ some (record (row_attempted c.max_attempts q) {
                  updated_at = env.persist_tx.db_now;
                }))
            × (db'.outbox ≡ t.outbox))
unfolding caught_lookup
reconcile_one-resolves c env k token db b p h =
    let held = holds c env k token db b p h in
    let t = env.others (renew_claim c env.renew_tx k token db).1 in
    let q = renewed_row c env p in
    (
      λ response a free fresh.
          let (same, same_db) =
            reconcile_one-persists c env k token db b p h (some response) (rw a refl) in
          let row = settled-answered env.processed_at env.persist_tx.uuid response q in
          let (done, found, added) =
            persist_resolution-settles c env.persist_tx env.processed_at k token t q held
              h.found_later h.persists response (rw row free) fresh in
          (
            same ∙ done,
            rw same_db (
                found
                ∙ ap (λ (x : Payment). some (record x { updated_at = env.persist_tx.db_now })) row),
            rw same_db added,
          ),
      λ a free.
          let (same, same_db) = reconcile_one-persists c env k token db b p h none (no_answer a) in
          let row = attempted-counted c.max_attempts q (ground (arith, h.claimed)) in
          let (done, found, kept) =
            persist_resolution-counts c env.persist_tx env.processed_at k token t q held
              h.found_later h.persists (rw row free) in
          (
            same ∙ done,
            rw same_db (
                found
                ∙ ap (λ (x : Payment). some (record x { updated_at = env.persist_tx.db_now })) row),
            rw same_db kept,
          ),
    )
  where
    no_answer :
        (env.lookup ≡ ok none)
          ⊎ (env.lookup ≡ err provider_unavailable)
          ⊎ (env.lookup ≡ err provider_ambiguous_outcome)
          ⊎ ((code : ℕ) × (env.lookup ≡ err (provider_permanent code)))
        → caught_lookup env.lookup ≡ ok none
    no_answer (inl a) = rw a refl
    no_answer (inr (inl a)) = rw a refl
    no_answer (inr (inr (inl a))) = rw a refl
    no_answer (inr (inr (inr (code, a)))) = rw a refl
