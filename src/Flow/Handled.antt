-- ===== src/Flow/Handled.antt =====
-- The database after an event that ended well: app/worker/payment_processor.py,
-- app/worker/webhook_processor.py and app/worker/dispatcher.py.
use async_payment_processing.Breaker.{Breaker}
use async_payment_processing.Prelude.{
  ℕ, ◌≡◌, refl, inl, inr, true, false, some, none, ok, err, Result, arith, is_some, Option-cases,
  Bool-cases, Result-cases, List, equals_some, Error, provider_ambiguous_outcome, sym, ◌∙◌,
}
use async_payment_processing.Schemas.{
  EventType, EventEnvelope, PaymentStatus, ProviderPaymentResponse, EventType-cases, is_pending,
  is_terminal, ProviderPaymentStatus, provider_payment_request,
}
use async_payment_processing.Breaker
use async_payment_processing.Schemas.Webhook.{validate_payload}
use async_payment_processing.Models.{Payment as PaymentRow, Database}
use async_payment_processing.Models.Rows.{find, find-replace, find-id, replace}
use async_payment_processing.Repositories.Session.{
  Tx, commit, save, save_with_event, webhook_event, final_status, loads, loads-ok,
}
use async_payment_processing.Worker.Payment
use async_payment_processing.Worker.Payment.{
  load_provider_request, after_provider, resolved, mark_unknown, apply_provider_result,
}
use async_payment_processing.Worker.Webhook
use async_payment_processing.Worker.Webhook.{load_delivery, mark_sent, after_delivery}
use async_payment_processing.Worker.Dispatcher
use async_payment_processing.Worker.Dispatcher.{Worker}
use async_payment_processing.Flow.Rows.{save-eq, save_with_event-eq}
use async_payment_processing.Flow.Later.{Advances}

-- The payment has left pending; or its webhook was sent.
abbrev pub HasRow : (PaymentRow → Type 0) → ℕ → Database → Type 0
HasRow P k db = (p : PaymentRow) × (find k db.payments ≡ some p) × P p

abbrev pub IsHandled : EventType → ℕ → Database → Type 0
IsHandled EventType.payment_process_requested k db = HasRow (λ p. is_pending p.status ≡ false) k db
IsHandled EventType.webhook_delivery_requested k db =
    HasRow (λ p. is_some p.webhook_sent_at ≡ true) k db

-- What was handled stays so.
pub IsHandled-later :
    (t : EventType) (k : ℕ) (db db' : Database)
    → Advances db db'
    → IsHandled t k db
    → IsHandled t k db'
IsHandled-later EventType.payment_process_requested k db db' a (p, f, done) =
    let (p', f', later) = a k p f in (p', f', later.not_again done)
IsHandled-later EventType.webhook_delivery_requested k db db' a (p, f, sent) =
    let (p', f', later) = a k p f in (p', f', ground (arith, sent, later.sent_once))

err-ne-ok : {e : Error} → ◌≡◌ {A = Result (Unit {0})} (err e) (ok tt) → ⊥
err-ne-ok q = cc

commit-ok {ℓ} :
    {A : Type ℓ} (tx : Tx) (x y : A) (r : Result Database) (db : Database)
    → (commit tx x r db).0 ≡ ok y
    → (changed : Database) × (r ≡ ok changed) × ((commit tx x r db).1 ≡ changed)
unfolding commit
commit-ok tx x y (err e) db h = absurd (ground arith)
commit-ok tx x y (ok changed) db h = elim (Bool-cases tx.alive) [
  | inl up ↦ (changed, refl, rw up)
  | inr down ↦ absurd (ground arith)
]

-- A row that was found and is written back is the one that is found.
replaced-found :
    (k : ℕ) (ps : List PaymentRow) (p q : PaymentRow)
    → find k ps ≡ some p
    → q.id ≡ p.id
    → find k (replace q ps) ≡ some q
replaced-found k ps p q f same = ground (arith, f, same, find-id k ps p f, find-replace k q ps)

mark_unknown-handles :
    (tx : Tx) (k : ℕ) (db : Database)
    → (mark_unknown tx k db).0 ≡ ok tt
    → HasRow (λ p. is_pending p.status ≡ false) k (mark_unknown tx k db).1
unfolding mark_unknown
mark_unknown-handles tx k db h = elim (Option-cases (find k db.payments)) [
  | inl e ↦ absurd (ground arith)
  | inr (p, e) ↦ elim (Bool-cases (is_pending p.status)) [
    | inl t ↦
        let q : PaymentRow = record p { status = PaymentStatus.unknown } in
        let (changed, saved, same) =
          commit-ok tx tt tt (save tx q db) db (rw (e, t, mark_unknown) at h) in
        rw (e, t)
          (
            record q { updated_at = tx.db_now },
            rw (same, save-eq tx q db changed saved)
                (replaced-found k db.payments p (record q { updated_at = tx.db_now }) e refl),
            refl,
          )
    | inr t ↦ rw (e, t) (p, e, t)
  ]
]

apply-handles :
    (tx : Tx) (k : ℕ) (response : ProviderPaymentResponse) (db : Database)
    → (apply_provider_result tx k response db).0 ≡ ok tt
    → HasRow (λ p. is_pending p.status ≡ false) k (apply_provider_result tx k response db).1
unfolding apply_provider_result
apply-handles tx k response db h = elim (Option-cases (find k db.payments)) [
  | inl e ↦ absurd (ground arith)
  | inr (p, e) ↦ elim (Bool-cases (is_pending p.status)) [
    | inl t ↦
        let q : PaymentRow = resolved tx.now tx.uuid response p in
        let event = webhook_event tx.uuid p.id tx.now tx.now in
        let (changed, saved, same) =
          commit-ok tx tt tt (save_with_event tx q event db) db
            (rw (e, t, apply_provider_result) at h) in
        rw (e, t)
          (
            record q { updated_at = tx.db_now },
            rw (same, save_with_event-eq tx q event db changed saved)
                (replaced-found k db.payments p (record q { updated_at = tx.db_now }) e refl),
            resolved-final response.status,
          )
    | inr t ↦ rw (e, t) (p, e, t)
  ]
]
  where
    resolved-final : (s : ProviderPaymentStatus) → is_pending (final_status s) ≡ false
    resolved-final s = ground arith

mark_sent-handles :
    (tx : Tx) (k event_id : ℕ) (db : Database)
    → (mark_sent tx k event_id db).0 ≡ ok tt
    → HasRow (λ p. is_some p.webhook_sent_at ≡ true) k (mark_sent tx k event_id db).1
unfolding mark_sent
mark_sent-handles tx k event_id db h = elim (Option-cases (find k db.payments)) [
  | inl e ↦ absurd (ground arith)
  | inr (p, e) ↦ elim (Bool-cases (is_some p.webhook_sent_at)) [
    | inl a ↦ rw (e, a) (p, e, a)
    | inr a ↦ elim (Bool-cases (equals_some p.webhook_event_id event_id)) [
      | inr b ↦ absurd (ground arith)
      | inl b ↦ elim (Bool-cases (is_terminal p.status)) [
        | inr d ↦ absurd (ground arith)
        | inl d ↦
            let q : PaymentRow = record p { webhook_sent_at = some tx.now } in
            let (changed, saved, same) =
              commit-ok tx tt tt (save tx q db) db (rw (e, a, b, d, mark_sent) at h) in
            rw (e, a, b, d)
              (
                record q { updated_at = tx.db_now },
                rw (same, save-eq tx q db changed saved)
                    (replaced-found k db.payments p (record q { updated_at = tx.db_now }) e refl),
                refl,
              )
      ]
    ]
  ]
]

after_provider-handles :
    (tx : Tx) (k : ℕ) (r : Result ProviderPaymentResponse) (db : Database)
    → (after_provider tx k r db).0 ≡ ok tt
    → HasRow (λ p. is_pending p.status ≡ false) k (after_provider tx k r db).1
unfolding after_provider
after_provider-handles tx k (ok response) db h = apply-handles tx k response db h
after_provider-handles tx k (err provider_ambiguous_outcome) db h = mark_unknown-handles tx k db h
after_provider-handles tx k (err e) db h = absurd (ground arith)

load_provider_request-none :
    (k : ℕ) (db : Database)
    → load_provider_request k db ≡ ok none
    → HasRow (λ p. is_pending p.status ≡ false) k db
unfolding load_provider_request provider_payment_request
load_provider_request-none k db h = elim (Option-cases (find k db.payments)) [
  | inl e ↦ absurd (ground arith)
  | inr (p, e) ↦ (p, e, ground arith)
]

load_delivery-none :
    (event : EventEnvelope) (db : Database)
    → load_delivery event db ≡ ok none
    → HasRow (λ p. is_some p.webhook_sent_at ≡ true) event.payment_id db
unfolding load_delivery validate_payload
load_delivery-none event db h = elim (Option-cases (find event.payment_id db.payments)) [
  | inl e ↦ absurd (ground arith)
  | inr (p, e) ↦ (p, e, ground arith)
]

payment-handles :
    (env : Payment.Env) (event : EventEnvelope) (db : Database) (b : Breaker)
    → event.event_type ≡ EventType.payment_process_requested
    → (Payment.process env event db b).0 ≡ ok tt
    → HasRow (λ p. is_pending p.status ≡ false) event.payment_id (Payment.process env event db b).1
unfolding Payment.process
payment-handles env event db b t h =
    elim (Result-cases (loads env.reads (load_provider_request event.payment_id db))) [
      | inl (e, q) ↦ absurd (err-ne-ok (rw (t, q, Payment.process) at h))
      | inr (request, q) ↦ elim (Option-cases request) [
        | inl n ↦
            rw (t, q, n)
              (load_provider_request-none event.payment_id db (loads-ok env.reads _ (rw n at q)))
        | inr (d, n) ↦
            rw (t, q, n)
              (after_provider-handles env.tx event.payment_id
                (Breaker.call env.started (env.provider d) env.other_calls env.ended b).0
                (env.others db) (rw (t, q, n, Payment.process) at h))
      ]
    ]

after_delivery-handles :
    (tx : Tx) (event : EventEnvelope) (r : Result (Unit {0})) (db : Database)
    → (after_delivery tx event r db).0 ≡ ok tt
    → HasRow
        (λ p. is_some p.webhook_sent_at ≡ true)
        event.payment_id
        (after_delivery tx event r db).1
unfolding after_delivery
after_delivery-handles tx event (ok done) db h =
    mark_sent-handles tx event.payment_id event.event_id db h
after_delivery-handles tx event (err e) db h = absurd (ground arith)

webhook-handles :
    (env : Webhook.Env) (event : EventEnvelope) (db : Database)
    → event.event_type ≡ EventType.webhook_delivery_requested
    → (Webhook.process env event db).0 ≡ ok tt
    → HasRow
        (λ p. is_some p.webhook_sent_at ≡ true)
        event.payment_id
        (Webhook.process env event db).1
unfolding Webhook.process find load_delivery after_delivery
webhook-handles env event db t h = elim (Result-cases (loads env.reads (load_delivery event db))) [
  | inl (e, q) ↦ absurd (err-ne-ok (rw (t, q, Webhook.process) at h))
  | inr (delivery, q) ↦ elim (Option-cases delivery) [
    | inl n ↦ rw (t, q, n) (load_delivery-none event db (loads-ok env.reads _ (rw n at q)))
    | inr (d, n) ↦
        rw (t, q, n)
          (after_delivery-handles env.tx event (env.deliver d event.event_id event.attempt)
            (env.others db) (rw (t, q, n, Webhook.process) at h))
  ]
]

module _ (payment_env : Payment.Env) (webhook_env : Webhook.Env) (event : EventEnvelope)
    (w : Worker) where
  process-Payment :
      event.event_type ≡ EventType.payment_process_requested
      → let (r, w') = Dispatcher.process payment_env webhook_env event w in
        let (r', db', b') = Payment.process payment_env event w.db w.breaker in
        (r ≡ r') × (w'.db ≡ db')
  unfolding Dispatcher.process
  process-Payment t = rw t (refl, refl)

  process-Webhook :
      event.event_type ≡ EventType.webhook_delivery_requested
      → let (r, w') = Dispatcher.process payment_env webhook_env event w in
        let (r', db') = Webhook.process webhook_env event w.db in (r ≡ r') × (w'.db ≡ db')
  unfolding Dispatcher.process
  process-Webhook t = rw t (refl, refl)

  -- An event that the dispatcher's processor ends well is handled.
  pub process-handles :
      (Dispatcher.process payment_env webhook_env event w).0 ≡ ok tt
      → IsHandled event.event_type event.payment_id
          (Dispatcher.process payment_env webhook_env event w).1.db
  process-handles h = elim (EventType-cases event.event_type) [
    | inl t ↦
        let (result, same) = process-Payment t in
        simp t (rw same (payment-handles payment_env event w.db w.breaker t (sym result ∙ h)))
    | inr t ↦
        let (result, same) = process-Webhook t in
        simp t (rw same (webhook-handles webhook_env event w.db t (sym result ∙ h)))
  ]

pub IsHandled-type :
    (s t : EventType) (k : ℕ) (db : Database) → s ≡ t → IsHandled t k db → IsHandled s k db
IsHandled-type s t k db e h = rw e h
