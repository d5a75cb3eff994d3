-- ===== src/Flow/Rows.antt =====
-- Writing one row, with or without an event, on a sound database: app/repositories.
use async_payment_processing.Prelude.{
  ℕ, ◌≡◌, refl, inl, inr, some, Bool-cases, ok, err, Result, sym, ◌∙◌, ◌≢◌, none, List, [], ◌∷◌,
  ◌++◌, arith, tally, tally-append, true, false, is_some, tally-le,
}
use async_payment_processing.Models.{Payment, OutboxEvent, Database}
use async_payment_processing.Models.Rows.{
  find, replace, find-id, replace-HasUniqueIds, append-HasUniqueIds, replaced, appended,
  replaced_none, appended_none,
}
use async_payment_processing.Repositories.Payments.{update}
use async_payment_processing.Repositories.Outbox.{add_event}
use async_payment_processing.Repositories.Session.{Tx, commit, save, save_with_event, webhook_event}
use async_payment_processing.Flow.{
  is_request, is_webhook, is_webhook_as, IsConsistent, IsSound, is_terminal,
}

pub commit-IsSound {ℓ} :
    {A : Type ℓ} (m : ℕ) (tx : Tx) (a : A) (r : Result Database) (db : Database)
    → ((changed : Database) → r ≡ ok changed → IsSound m changed)
    → IsSound m db
    → IsSound m (commit tx a r db).1
unfolding commit
commit-IsSound m tx a (err e) db new old = old
commit-IsSound m tx a (ok changed) db new old = elim (Bool-cases tx.alive) [
  | inl e ↦ rw e (new changed refl)
  | inr e ↦ rw e old
]

pub commit_ok-IsSound {ℓ} :
    {A : Type ℓ} (m : ℕ) (tx : Tx) (a : A) (changed db : Database)
    → IsSound m changed
    → IsSound m db
    → IsSound m (commit tx a (ok changed) db).1
unfolding commit
commit_ok-IsSound m tx a changed db new old = elim (Bool-cases tx.alive) [
  | inl e ↦ rw e new
  | inr e ↦ rw e old
]

-- Only the events of its own payment bear on a row.
pub other-IsConsistent :
    (m : ℕ) (es : List OutboxEvent) (e : OutboxEvent) (p : Payment)
    → e.payment_id ≢ p.id
    → IsConsistent m es p
    → IsConsistent m (es ++ e ∷ []) p
other-IsConsistent m es e p ne h = record {
  payable = h.payable;
  requested = ground (arith, tally-append {0} (is_request p.id) es (e ∷ []), h.requested);
  announced = ground (arith, tally-append {0} (is_webhook p.id) es (e ∷ []), h.announced);
  announced_as =
      ground (
        arith,
        tally-append {0} (is_webhook_as p.id p.webhook_event_id) es (e ∷ []),
        h.announced_as,
      );
  named = h.named;
  answered = h.answered;
  dated = h.dated;
  sent = h.sent;
  leased = h.leased;
  lease_unknown = h.lease_unknown;
  reviewed = h.reviewed;
  review_unknown = h.review_unknown;
  spent = h.spent;
  lease_open = h.lease_open;
  fresh = h.fresh;
}

orphans-append :
    (k : ℕ) (es : List OutboxEvent) (e : OutboxEvent)
    → e.payment_id ≢ k
    → (tally (is_request k) es ≡ 0) × (tally (is_webhook k) es ≡ 0)
    → (tally (is_request k) (es ++ e ∷ []) ≡ 0) × (tally (is_webhook k) (es ++ e ∷ []) ≡ 0)
orphans-append k es e ne h = (
  ground (arith, tally-append {0} (is_request k) es (e ∷ []), h.0),
  ground (arith, tally-append {0} (is_webhook k) es (e ∷ []), h.1),
)

-- The event that a row is given when it gets its final status.
pub announced-IsConsistent :
    (m : ℕ) (es : List OutboxEvent) (p q : Payment) (occurred_at created_at event_id : ℕ)
    → is_terminal p.status ≡ false
    → q.id ≡ p.id
    → q.amount ≡ p.amount
    → is_terminal q.status ≡ true
    → q.webhook_event_id ≡ some event_id
    → is_some q.provider_payment_id ≡ true
    → is_some q.processed_at ≡ true
    → q.requires_manual_review ≡ false
    → q.reconciliation_attempts ≡ p.reconciliation_attempts
    → p.requires_manual_review ≡ false
    → q.reconciliation_lease_token ≡ none
    → q.reconciliation_lease_until ≡ none
    → IsConsistent m es p
    → IsConsistent m (es ++ webhook_event event_id p.id occurred_at created_at ∷ []) q
announced-IsConsistent m es p q occurred_at created_at event_id open_row same amount final name
      provider date review attempts old_review token until h =
    record {
      payable = rw amount h.payable;
      requested =
          rw same (ground (arith, tally-append {0} (is_request p.id) es (e ∷ []), h.requested));
      announced =
          rw (same, final)
            (ground (arith, tally-append {0} (is_webhook p.id) es (e ∷ []), h.announced));
      announced_as =
          rw (same, final, name)
            (ground (
              arith,
              tally-append {0} (is_webhook_as p.id (some event_id)) es (e ∷ []),
              tally-le {0} (is_webhook_as p.id (some event_id)) (is_webhook p.id)
                  (λ x t. ground arith) es,
              h.announced,
            ));
      named = rw (name, final);
      answered = rw (provider, final);
      dated = rw (date, final);
      sent = λ t. final;
      leased = rw (token, until);
      lease_unknown = λ t. ground arith;
      reviewed = ground (arith, h.reviewed);
      review_unknown = λ t. ground arith;
      spent = rw attempts h.spent;
      lease_open = λ t. review;
      fresh = λ t. ground arith;
    }
  where
    e : OutboxEvent
    e = webhook_event event_id p.id occurred_at created_at

module _ (m : ℕ) (db : Database) (p q : Payment) (found : find q.id db.payments ≡ some p) where
  pub replace-IsSound :
      IsConsistent m db.outbox q
      → IsSound m db
      → IsSound m (record db { payments = replace q db.payments })
  replace-IsSound good h = record {
    unique = replace-HasUniqueIds q db.payments h.unique;
    rows = λ k r f. elim (replaced k p q r db.payments found f) [
      | inl (e, same) ↦ rw same good
      | inr (ne, old) ↦ h.rows k r old
    ];
    no_orphans = λ k f. h.no_orphans k (replaced_none k q db.payments f);
  }

  pub replace_with_event-IsSound :
      (e : OutboxEvent)
      → e.payment_id ≡ q.id
      → IsConsistent m (db.outbox ++ e ∷ []) q
      → IsSound m db
      → IsSound m (record { payments = replace q db.payments; outbox = db.outbox ++ e ∷ [] })
  replace_with_event-IsSound e own good h = record {
    unique = replace-HasUniqueIds q db.payments h.unique;
    rows = λ k r f. elim (replaced k p q r db.payments found f) [
      | inl (i, same) ↦ rw same good
      | inr (ne, old) ↦
          other-IsConsistent m db.outbox e r (λ c. ne (sym own ∙ c ∙ find-id k db.payments r old))
            (h.rows k r old)
    ];
    no_orphans = λ k f.
        let old = replaced_none k q db.payments f in
        orphans-append k db.outbox e (λ c. ground (arith, found, old)) (h.no_orphans k old);
  }

-- A new row with its request.
pub append-IsSound :
    (m : ℕ) (db : Database) (q : Payment) (e : OutboxEvent)
    → find q.id db.payments ≡ none
    → e.payment_id ≡ q.id
    → IsConsistent m (db.outbox ++ e ∷ []) q
    → IsSound m db
    → IsSound m (record { payments = db.payments ++ q ∷ []; outbox = db.outbox ++ e ∷ [] })
append-IsSound m db q e none_yet own good h = record {
  unique = append-HasUniqueIds db.payments q h.unique none_yet;
  rows = λ k r f. elim (appended k q r db.payments none_yet f) [
    | inl (i, same) ↦ rw same good
    | inr (ne, old) ↦
        other-IsConsistent m db.outbox e r (λ c. ne (sym own ∙ c ∙ find-id k db.payments r old))
          (h.rows k r old)
  ];
  no_orphans = λ k f.
      let (ne, old) = appended_none k q db.payments f in
      orphans-append k db.outbox e (λ c. ne (sym own ∙ c)) (h.no_orphans k old);
}

-- The results of the two ways to save a row.
pub save-eq :
    (tx : Tx) (p : Payment) (db changed : Database)
    → save tx p db ≡ ok changed
    → changed ≡ record db { payments = replace (record p { updated_at = tx.db_now }) db.payments }
unfolding save update
save-eq tx p db changed h = ground arith

pub save_with_event-eq :
    (tx : Tx) (p : Payment) (e : OutboxEvent) (db changed : Database)
    → save_with_event tx p e db ≡ ok changed
    → changed ≡ record {
      payments = replace (record p { updated_at = tx.db_now }) db.payments;
      outbox = db.outbox ++ e ∷ [];
    }
unfolding save_with_event update add_event
save_with_event-eq tx p e db changed h = ground arith
