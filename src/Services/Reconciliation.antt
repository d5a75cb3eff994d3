-- ===== src/Services/Reconciliation.antt =====
-- app/services/payment_reconciliation.py, class `PaymentReconciliationWorker`.
pub mod Lease
pub mod Loop
use async_payment_processing.Prelude.{
  ℕ, ◌+◌, ◌-◌, Bool, true, false, Option, none, some, List, [], ◌∷◌, if◌then◌else◌, ◌==◌, ltb, leb,
  ok, err, breaker_open, Result, raise_if, provider_permanent, provider_unavailable,
  provider_ambiguous_outcome, value_error, ◌>>◌, cancelled, base_exception,
}
use async_payment_processing.Breaker
use async_payment_processing.Breaker.{Breaker}
use async_payment_processing.Schemas.{ProviderPaymentResponse}
use async_payment_processing.Models.{Payment, Database}
use async_payment_processing.Repositories.Payments.{
  claim_reconciliation_batch, renew_reconciliation_lease, get_claimed_payment_for_update,
}
use async_payment_processing.Repositories.Session.{
  Tx, commit, save, save_with_event, final_status, webhook_event,
}

pub record Config : Type 0 where
  pub batch_size : ℕ
  pub stale_after : ℕ
  pub poll_interval : ℕ
  pub lease_time : ℕ
  pub max_attempts : ℕ

-- `__init__`
unfoldable pub check_config : Config → Result Config
check_config c = do
  raise_if (ltb c.batch_size 1) value_error
  raise_if (c.poll_interval == 0) value_error
  raise_if (c.lease_time == 0) value_error
  raise_if (ltb c.max_attempts 1) value_error
  ok c

-- `_claim_batch`; `tx.uuid` is the lease token.
unfoldable pub claim_batch : Config → Tx → (ℕ → Bool) → Database → Result (ℕ × List ℕ) × Database
unfolding commit
claim_batch c tx locked db =
    let (claimed, ps) =
      claim_reconciliation_batch locked (tx.now - c.stale_after) tx.now tx.uuid
        (tx.now + c.lease_time) c.batch_size tx.db_now db.payments in
    commit tx (tx.uuid, claimed) (ok (record db { payments = ps })) db

renewed : Tx → Bool × List Payment → Database → Result Bool × Database
unfolding commit
renewed tx (false, ps) db = (ok false, db)
renewed tx (true, ps) db = commit tx true (ok (record db { payments = ps })) db

-- `_renew_claim`
unfoldable pub renew_claim : Config → Tx → ℕ → ℕ → Database → Result Bool × Database
unfolding renewed
renew_claim c tx payment_id lease_token db =
    renewed tx
      (renew_reconciliation_lease payment_id lease_token tx.now (tx.now + c.lease_time) tx.db_now
        db.payments)
      db

-- The `except` clause of `_lookup_provider`: a failed lookup counts as no answer.
unfoldable pub caught_lookup :
    Result (Option ProviderPaymentResponse) → Result (Option ProviderPaymentResponse)
caught_lookup (err breaker_open) = ok none
caught_lookup (err provider_unavailable) = ok none
caught_lookup (err provider_ambiguous_outcome) = ok none
caught_lookup (err (provider_permanent status_code)) = ok none
caught_lookup r = r

-- The row after a lookup that gave no answer.
abbrev pub attempted : ℕ → Payment → Payment
attempted max_attempts p = record p {
  reconciliation_attempts = p.reconciliation_attempts + 1;
  requires_manual_review =
      if leb max_attempts (p.reconciliation_attempts + 1) then true else p.requires_manual_review;
  reconciliation_lease_token = none;
  reconciliation_lease_until = none;
}

-- The row after an answer.
abbrev pub settled : ℕ → ℕ → ProviderPaymentResponse → Payment → Payment
settled processed_at webhook_event_id response p = record p {
  status = final_status response.status;
  provider_payment_id = some response.provider_payment_id;
  processed_at = some processed_at;
  webhook_event_id = some webhook_event_id;
  reconciliation_lease_token = none;
  reconciliation_lease_until = none;
}

persist_row :
    Config
    → Tx
    → ℕ
    → Option ProviderPaymentResponse
    → Option Payment
    → Database
    → Result Bool × Database
unfolding commit
persist_row c tx processed_at response none db = (ok false, db)
persist_row c tx processed_at none (some p) db =
    commit tx false (save tx (attempted c.max_attempts p) db) db
persist_row c tx processed_at (some response) (some p) db =
    commit tx true
      (save_with_event tx (settled processed_at tx.uuid response p)
        (webhook_event tx.uuid p.id processed_at tx.db_now) db)
      db

-- `_persist_resolution`: `processed_at` is its second reading of the clock, and the event takes
-- `created_at` from the database.
unfoldable pub persist_resolution :
    Config → Tx → ℕ → ℕ → ℕ → Option ProviderPaymentResponse → Database → Result Bool × Database
unfolding persist_row
persist_resolution c tx processed_at payment_id lease_token response db =
    persist_row c tx processed_at response
      (get_claimed_payment_for_update payment_id lease_token tx.now db.payments) db

-- What the loop body meets for one payment: `before` is what others commit before its turn, and `others`
-- what they commit while the provider is asked.
pub record Env : Type 0 where
  pub before : Database → Database
  pub renew_tx : Tx
  pub started : ℕ
  pub ended : ℕ
  pub lookup : Result (Option ProviderPaymentResponse)
  pub others : Database → Database
  pub other_calls : Breaker → Breaker
  pub persist_tx : Tx
  pub processed_at : ℕ

persist_answer :
    Config
    → Env
    → ℕ
    → ℕ
    → Result (Option ProviderPaymentResponse)
    → Database
    → Result Bool × Database
persist_answer c env payment_id lease_token (err e) db = (err e, db)
persist_answer c env payment_id lease_token (ok response) db =
    persist_resolution c env.persist_tx env.processed_at payment_id lease_token response db

look_up : Config → Env → ℕ → ℕ → Result Bool → Database → Breaker → Result Bool × Database × Breaker
unfolding persist_answer
look_up c env payment_id lease_token (err e) db b = (err e, db, b)
look_up c env payment_id lease_token (ok false) db b = (ok false, db, b)
look_up c env payment_id lease_token (ok true) db b =
    let (answer, b') = Breaker.call env.started env.lookup env.other_calls env.ended b in
    let (result, db') =
      persist_answer c env payment_id lease_token (caught_lookup answer) (env.others db) in
    (result, db', b')

-- The body of the loop of `process_batch`, up to its `except Exception`.
unfoldable pub reconcile_one :
    Config → Env → ℕ → ℕ → Database → Breaker → Result Bool × Database × Breaker
unfolding look_up
reconcile_one c env payment_id lease_token db b =
    let (lease_valid, db') = renew_claim c env.renew_tx payment_id lease_token db in
    look_up c env payment_id lease_token lease_valid db' b

-- `except Exception`: an exception is logged, and the loop goes on; a cancellation ends it.
abbrev pub counted : Result Bool → Result ℕ
counted (ok true) = ok 1
counted (ok false) = ok 0
counted (err cancelled) = err cancelled
counted (err base_exception) = err base_exception
counted (err e) = ok 0

abbrev add_count : ℕ → Result ℕ → Result ℕ
add_count m (ok n) = ok (m + n)
add_count m (err e) = err e

unfoldable pub reconcile_all :
    Config → (ℕ → Env) → List ℕ → ℕ → Database → Breaker → Result ℕ × Database × Breaker
reconcile_all c env [] lease_token db b = (ok 0, db, b)
reconcile_all c env (k ∷ ks) lease_token db b =
    let (r, db', b') = reconcile_one c (env k) k lease_token ((env k).before db) b in
    let (rest, db'', b'') = reconcile_all c env ks lease_token db' b' in
    elim (counted r) [ ok n ↦ (add_count n rest, db'', b'') | err e ↦ (err e, db', b') ]

claimed_batch :
    Config → (ℕ → Env) → Result (ℕ × List ℕ) → Database → Breaker → Result ℕ × Database × Breaker
unfolding reconcile_all
claimed_batch c env (err e) db b = (err e, db, b)
claimed_batch c env (ok (lease_token, claimed)) db b = reconcile_all c env claimed lease_token db b

-- `process_batch`
unfoldable pub process_batch :
    Config → Tx → (ℕ → Bool) → (ℕ → Env) → Database → Breaker → Result ℕ × Database × Breaker
unfolding claimed_batch claim_batch
process_batch c tx locked env db b =
    let (claim, db') = claim_batch c tx locked db in claimed_batch c env claim db' b
