-- ===== src/Flow/Reach.antt =====
-- Transactions of any number of API servers and workers, in any order: app/services and app/worker.
use async_payment_processing.Prelude.{ℕ, ◌≤◌, String, ◌≡◌, refl, Bool, Option, [], ok}
use async_payment_processing.Schemas.{
  PaymentCreate, ProviderPaymentResponse, validate_payment_create,
}
use async_payment_processing.Models.{Database}
use async_payment_processing.Models.Rows.{find}
use async_payment_processing.Repositories.Session.{Tx, commit}
use async_payment_processing.Services.Create.{new_payment, process_requested_event, insert_both}
use async_payment_processing.Services.Relay
use async_payment_processing.Services.Relay.{Broker}
use async_payment_processing.Services.Reconciliation.{
  Config, claim_batch, renew_claim, persist_resolution,
}
use async_payment_processing.Worker.Payment.{mark_unknown, apply_provider_result}
use async_payment_processing.Worker.Webhook.{mark_sent}
use async_payment_processing.Flow.{IsSound}
use async_payment_processing.Flow.Create.{inserted-IsSound, valid-amount}
use async_payment_processing.Flow.Process.{mark_unknown-IsSound, apply_provider_result-IsSound}
use async_payment_processing.Flow.Deliver.{mark_sent-IsSound}
use async_payment_processing.Flow.Reconcile.{
  claim_batch-IsSound, renew_claim-IsSound, persist_resolution-IsSound,
}
use async_payment_processing.Flow.Relay.{relay-IsSound}
use async_payment_processing.Flow.Later.{Advances, Advances-refl, Advances-trans}
use async_payment_processing.Flow.Progress.{
  insert-Advances, mark_unknown-Advances, apply_provider_result-Advances, mark_sent-Advances,
  relay-Advances, claim_batch-Advances, renew_claim-Advances, persist_resolution-Advances,
}

-- One transaction, with everything that it reads from outside: clocks, fresh ids, the answers of the
-- provider and of the broker, and whether the server carries it out.
pub data Step (c : Config) (db : Database) : Database → Type 0 where
  insert :
      (tx : Tx) (event_id : ℕ) (d : PaymentCreate) (key fingerprint : String)
      → validate_payment_create d ≡ ok d
      → Step c db
          (commit {0} tx tt
            (insert_both
              (new_payment tx d key fingerprint)
              (process_requested_event event_id tx.now (new_payment tx d key fingerprint))
              db)
            db).1
  set_unknown : (tx : Tx) (k : ℕ) → Step c db (mark_unknown tx k db).1
  apply :
      (tx : Tx) (k : ℕ) (r : ProviderPaymentResponse)
      → Step c db (apply_provider_result tx k r db).1
  set_sent : (tx : Tx) (k event_id : ℕ) → Step c db (mark_sent tx k event_id db).1
  relay :
      (broker : Broker) (tx : Tx) (locked : ℕ → Bool) (batch_size : ℕ)
      → Step c db (Relay.process_batch broker tx locked batch_size db).2
  claim : (tx : Tx) (locked : ℕ → Bool) → Step c db (claim_batch c tx locked db).1
  renew : (tx : Tx) (k token : ℕ) → Step c db (renew_claim c tx k token db).1
  persist :
      (tx : Tx) (processed_at k token : ℕ) (r : Option ProviderPaymentResponse)
      → Step c db (persist_resolution c tx processed_at k token r db).1

pub data Reach (c : Config) (db : Database) : Database → Type 0 where
  here : Reach c db db
  next : {t u : Database} → Reach c db t → Step c t u → Reach c db u

Step-IsSound :
    {c : Config} {t u : Database}
    → 1 ≤ c.max_attempts
    → Step c t u
    → IsSound c.max_attempts t
    → IsSound c.max_attempts u
Step-IsSound {c} {t} le (insert tx event_id d key fingerprint valid) h =
    inserted-IsSound c.max_attempts tx event_id d key fingerprint t le (valid-amount d valid) h
Step-IsSound {c} {t} le (set_unknown tx k) h = mark_unknown-IsSound c.max_attempts tx k t h
Step-IsSound {c} {t} le (apply tx k r) h = apply_provider_result-IsSound c.max_attempts tx k r t h
Step-IsSound {c} {t} le (set_sent tx k event_id) h =
    mark_sent-IsSound c.max_attempts tx k event_id t h
Step-IsSound {c} {t} le (relay broker tx locked size) h =
    relay-IsSound c.max_attempts broker tx locked size t h
Step-IsSound {c} {t} le (claim tx locked) h = claim_batch-IsSound c.max_attempts c tx locked t h
Step-IsSound {c} {t} le (renew tx k token) h = renew_claim-IsSound c.max_attempts c tx k token t h
Step-IsSound {c} {t} le (persist tx at k token r) h =
    persist_resolution-IsSound c tx at k token r t h

abbrev pub empty : Database
empty = record { payments = []; outbox = [] }

empty-IsSound : (m : ℕ) → IsSound m empty
unfolding find
empty-IsSound m = record { unique = tt; rows = λ k p f. cc; no_orphans = λ k f. (refl, refl) }

-- In every database that transactions reach from the empty one, in any order and with any failures, if
-- the reconciliation is granted at least one attempt, every payment is consistent: exactly one event
-- asks to process it; once its status is final, and only then, exactly one event asks for its webhook,
-- under the event id that the row holds, and the row holds the provider's id and a date; a lease or a
-- manual review is only on an unknown status, and never both; no more attempts are counted than are
-- granted, and manual review is asked for exactly when they are used up; and no event is about a
-- payment that is not there.
pub Reach-IsSound :
    {c : Config} {db : Database} → 1 ≤ c.max_attempts → Reach c empty db → IsSound c.max_attempts db
Reach-IsSound {c} le here = empty-IsSound c.max_attempts
Reach-IsSound le (next r s) = Step-IsSound le s (Reach-IsSound le r)

pub Step-Advances : {c : Config} {t u : Database} → Step c t u → Advances t u
Step-Advances {c} {t} (insert tx event_id d key fingerprint valid) = insert-Advances tx _ _ t
Step-Advances {c} {t} (set_unknown tx k) = mark_unknown-Advances tx k t
Step-Advances {c} {t} (apply tx k r) = apply_provider_result-Advances tx k r t
Step-Advances {c} {t} (set_sent tx k event_id) = mark_sent-Advances tx k event_id t
Step-Advances {c} {t} (relay broker tx locked size) = relay-Advances broker tx locked size t
Step-Advances {c} {t} (claim tx locked) = claim_batch-Advances c tx locked t
Step-Advances {c} {t} (renew tx k token) = renew_claim-Advances c tx k token t
Step-Advances {c} {t} (persist tx at k token r) = persist_resolution-Advances c tx at k token r t

-- Whatever transactions follow, no payment is lost and none loses its amount, key or target; a final
-- status stays, with the provider's id, the date and the webhook event that were stored with it; a
-- payment that has left pending never comes back to it; and a webhook that was sent stays sent.
pub Reach-Advances : {c : Config} {s t : Database} → Reach c s t → Advances s t
Reach-Advances {s} here = Advances-refl s
Reach-Advances {s} {t = u} (next {t} r st) =
    Advances-trans s t u (Reach-Advances r) (Step-Advances st)
