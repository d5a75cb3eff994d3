-- ===== src/Tests/Reconciliation.antt =====
-- One turn of the reconciliation for a claimed payment.
use async_payment_processing.Prelude.{
  ◌≡◌, refl, true, false, none, some, [], ◌∷◌, ◌++◌, arith, ok, ℕ, ◌⊎◌, err, provider_permanent,
  provider_unavailable, provider_ambiguous_outcome,
}
use async_payment_processing.Schemas.{ProviderPaymentResponse, PaymentStatus}
use async_payment_processing.Models.{Payment, Database}
use async_payment_processing.Models.Rows.{find, replace}
use async_payment_processing.Repositories.Payments.{
  clashes_other, renew_reconciliation_lease, get_claimed_payment_for_update,
}
use async_payment_processing.Repositories.Outbox.{has_event}
use async_payment_processing.Repositories.Session.{commit}
use async_payment_processing.Services.Reconciliation.{renew_claim, reconcile_one}
use async_payment_processing.Flow.Complete.{webhook_envelope, event_with}
use async_payment_processing.Flow.Resolved.{
  row_answered, row_attempted, IsLeased, renewed_row, reconcile_one-resolves,
}
use async_payment_processing.Tests.Flow.{lookup_env, closed}
use async_payment_processing.Tests.Samples.{config, tx_at, db_unknown, new_row}

-- Claimed at 40, under the token 140, until 100.
abbrev leased_row : Payment
leased_row = record new_row {
  status = PaymentStatus.unknown;
  updated_at = 40;
  reconciliation_lease_token = some 140;
  reconciliation_lease_until = some 100;
}

abbrev db_leased : Database
db_leased = record db_unknown { payments = leased_row ∷ [] }

abbrev db_renewed : Database
db_renewed = (renew_claim config (tx_at 41) 101 140 db_leased).1

leased : IsLeased config lookup_env 101 140 db_leased closed leased_row
unfolding find replace renew_claim renew_reconciliation_lease get_claimed_payment_for_update commit
leased = record {
  found = refl;
  claimed = refl;
  renews = refl;
  found_later = refl;
  in_time = omega arith;
  persists = refl;
  closed = refl;
}

reconcile_one-resolves_example :
    let q = renewed_row config lookup_env leased_row in
    let (result, db', b') = reconcile_one config lookup_env 101 140 db_leased closed in
    ((response : ProviderPaymentResponse)
      → lookup_env.lookup ≡ ok (some response)
      → let row = row_answered 43 143 response q in
        let told = webhook_envelope 143 101 43 in
        (clashes_other row db_renewed.payments ≡ false)
        → has_event 143 db_renewed.outbox ≡ false
        → (result ≡ ok true)
          × (find 101 db'.payments ≡ some (record row { updated_at = 43 }))
          × (db'.outbox ≡ db_renewed.outbox ++ event_with told 43 ∷ []))
    × ((lookup_env.lookup ≡ ok none)
          ⊎ (lookup_env.lookup ≡ err provider_unavailable)
          ⊎ (lookup_env.lookup ≡ err provider_ambiguous_outcome)
          ⊎ ((code : ℕ) × (lookup_env.lookup ≡ err (provider_permanent code)))
        → clashes_other (row_attempted 5 q) db_renewed.payments ≡ false
        → (result ≡ ok false)
          × (find 101 db'.payments ≡ some (record (row_attempted 5 q) { updated_at = 43 }))
          × (db'.outbox ≡ db_renewed.outbox))
reconcile_one-resolves_example =
    reconcile_one-resolves config lookup_env 101 140 db_leased closed leased_row leased
