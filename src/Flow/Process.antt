-- ===== src/Flow/Process.antt =====
-- Processing a payment on a sound database: app/worker/payment_processor.py.
use async_payment_processing.Prelude.{
  ℕ, ◌≡◌, true, List, [], ◌∷◌, ◌++◌, arith, refl, inl, inr, some, Option-cases, Bool-cases, ok, err,
  Result, Result-cases, provider_ambiguous_outcome, ◌⊎◌,
}
use async_payment_processing.Schemas.{
  PaymentStatus, ProviderPaymentResponse, EventEnvelope, is_pending, EventType-cases,
}
use async_payment_processing.Breaker.{Breaker}
use async_payment_processing.Breaker
use async_payment_processing.Models.{Payment, OutboxEvent, Database}
use async_payment_processing.Models.Rows.{find, find_self}
use async_payment_processing.Repositories.Session.{
  Tx, commit, save, webhook_event, save_with_event, loads,
}
use async_payment_processing.Worker.Payment.{
  resolved, mark_unknown, apply_provider_result, after_provider, process, Env,
  load_provider_request,
}
use async_payment_processing.Flow.{IsConsistent, IsSound}
use async_payment_processing.Flow.Rows.{
  commit-IsSound, announced-IsConsistent, replace-IsSound, save-eq, save_with_event-eq,
  replace_with_event-IsSound,
}

unknown-IsConsistent :
    (m db_now : ℕ) (es : List OutboxEvent) (p : Payment)
    → is_pending p.status ≡ true
    → IsConsistent m es p
    → IsConsistent m es (record p { status = PaymentStatus.unknown; updated_at = db_now })
unknown-IsConsistent m db_now es p pending h = ground arith

resolved-IsConsistent :
    (m now event_id db_now : ℕ) (response : ProviderPaymentResponse) (es : List OutboxEvent)
    (p : Payment)
    → is_pending p.status ≡ true
    → IsConsistent m es p
    → IsConsistent m
        (es ++ webhook_event event_id p.id now now ∷ [])
        (record (resolved now event_id response p) { updated_at = db_now })
resolved-IsConsistent m now event_id db_now response es p pending h =
    announced-IsConsistent m es p
      (record (resolved now event_id response p) { updated_at = db_now }) now now event_id
      (ground arith) refl refl (ground arith) refl refl refl (ground (arith, h.review_unknown)) refl
      (ground (arith, h.review_unknown)) (ground (arith, h.lease_unknown))
      (ground (arith, h.lease_unknown, h.leased)) h

pub mark_unknown-IsSound :
    (m : ℕ) (tx : Tx) (k : ℕ) (db : Database) → IsSound m db → IsSound m (mark_unknown tx k db).1
unfolding mark_unknown
mark_unknown-IsSound m tx k db h = elim (Option-cases (find k db.payments)) [
  | inl e ↦ rw e h
  | inr (p, e) ↦ elim (Bool-cases (is_pending p.status)) [
    | inl pending ↦ rw (e, pending) (marked p e pending)
    | inr other ↦ rw (e, other) h
  ]
]
  where
    marked :
        (p : Payment)
        → find k db.payments ≡ some p
        → is_pending p.status ≡ true
        → IsSound m
            (commit {0} tx tt (save tx (record p { status = PaymentStatus.unknown }) db) db).1
    marked p e pending =
        commit-IsSound m tx tt (save tx (record p { status = PaymentStatus.unknown }) db) db
          (λ changed c. rw (save-eq tx _ db changed c) (
            replace-IsSound m db p _ (find_self k db.payments p e)
              (unknown-IsConsistent m tx.db_now db.outbox p pending (h.rows k p e)) h))
          h

pub apply_provider_result-IsSound :
    (m : ℕ) (tx : Tx) (k : ℕ) (response : ProviderPaymentResponse) (db : Database)
    → IsSound m db
    → IsSound m (apply_provider_result tx k response db).1
unfolding apply_provider_result
apply_provider_result-IsSound m tx k response db h = elim (Option-cases (find k db.payments)) [
  | inl e ↦ rw e h
  | inr (p, e) ↦ elim (Bool-cases (is_pending p.status)) [
    | inl pending ↦ rw (e, pending) (settled p e pending)
    | inr other ↦ rw (e, other) h
  ]
]
  where
    settled :
        (p : Payment)
        → find k db.payments ≡ some p
        → is_pending p.status ≡ true
        → let q = resolved tx.now tx.uuid response p in
          let e = webhook_event tx.uuid p.id tx.now tx.now in
          IsSound m (commit {0} tx tt (save_with_event tx q e db) db).1
    settled p e pending =
        commit-IsSound m tx tt (save_with_event tx _ _ db) db
          (λ changed c. rw (save_with_event-eq tx _ _ db changed c) (
            replace_with_event-IsSound m db p _ (find_self k db.payments p e) _ refl
              (resolved-IsConsistent m tx.now tx.uuid tx.db_now response db.outbox p pending
                (h.rows k p e))
              h))
          h

after_provider-IsSound :
    (m : ℕ) (tx : Tx) (k : ℕ) (r : Result ProviderPaymentResponse) (db : Database)
    → IsSound m db
    → IsSound m (after_provider tx k r db).1
unfolding after_provider
after_provider-IsSound m tx k (ok response) db h =
    apply_provider_result-IsSound m tx k response db h
after_provider-IsSound m tx k (err provider_ambiguous_outcome) db h =
    mark_unknown-IsSound m tx k db h
after_provider-IsSound m tx k (err e) db h = h

-- A run leaves the database alone, or ends with what follows some outcome of the provider call.
process-db :
    (env : Env) (event : EventEnvelope) (db : Database) (b : Breaker)
    → ((process env event db b).1 ≡ db)
      ⊎ ((r : Result ProviderPaymentResponse) × ((process env event db b).1
            ≡ (after_provider env.tx event.payment_id r (env.others db)).1))
unfolding process
process-db env event db b = elim (EventType-cases event.event_type) [
  | inr t ↦ inl (rw t)
  | inl t ↦ elim (Result-cases (loads env.reads (load_provider_request event.payment_id db))) [
    | inl (e, q) ↦ inl (rw (t, q))
    | inr (request, q) ↦ elim (Option-cases request) [
      | inl n ↦ inl (rw (t, q, n))
      | inr (d, n) ↦
          inr (
            (Breaker.call env.started (env.provider d) env.other_calls env.ended b).0,
            rw (t, q, n),
          )
    ]
  ]
]

-- Processing an event keeps the database sound, whatever the provider answers and the breaker does, if
-- what others commit during the call keeps it sound.
pub process-IsSound :
    (m : ℕ) (env : Env) (event : EventEnvelope) (db : Database) (b : Breaker)
    → ((t : Database) → IsSound m t → IsSound m (env.others t))
    → IsSound m db
    → IsSound m (process env event db b).1
process-IsSound m env event db b keep h = elim (process-db env event db b) [
  | inl same ↦ rw same h
  | inr (r, same) ↦
      rw same (after_provider-IsSound m env.tx event.payment_id r (env.others db) (keep db h))
]
