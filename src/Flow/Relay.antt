-- ===== src/Flow/Relay.antt =====
-- The outbox relay on a sound database: app/services/outbox_relay.py.
use async_payment_processing.Prelude.{
  ℕ, ◌≡◌, refl, ◌∙◌, inl, inr, Bool, Option, some, List, [], ◌∷◌, arith, ◌==◌, Bool-cases, ok,
  length, tally, Result-cases, bind-ok,
}
use async_payment_processing.Models.{OutboxEvent, Database}
use async_payment_processing.Repositories.Outbox.{mark_published, get_unpublished_batch}
use async_payment_processing.Repositories.Session.{Tx}
use async_payment_processing.Services.Relay.{Broker, publish_all, process_batch}
use async_payment_processing.Flow.{
  is_request, is_webhook, is_webhook_as, IsSound, Payment, IsConsistent,
}
use async_payment_processing.Flow.Rows.{commit-IsSound}

-- The same events, published or not.
record SameEvents (es es' : List OutboxEvent) : Type 0 where
  requests : (k : ℕ) → tally (is_request k) es' ≡ tally (is_request k) es
  webhooks : (k : ℕ) → tally (is_webhook k) es' ≡ tally (is_webhook k) es
  webhooks_as :
      (k : ℕ) (i : Option ℕ) → tally (is_webhook_as k i) es' ≡ tally (is_webhook_as k i) es

tally-mark_published :
    (test : OutboxEvent → Bool)
    → ((e : OutboxEvent) (t : ℕ) → test (record e { published_at = some t }) ≡ test e)
    → (now k : ℕ) (es : List OutboxEvent) → tally test (mark_published now k es) ≡ tally test es
unfolding mark_published
tally-mark_published test same now k [] = refl
tally-mark_published test same now k (e ∷ es) = elim (Bool-cases (e.id == k)) [
  | inl q ↦ rw (q, same e now, tally-mark_published test same now k es)
  | inr q ↦ rw (q, tally-mark_published test same now k es)
]

mark-SameEvents : (now k : ℕ) (es : List OutboxEvent) → SameEvents es (mark_published now k es)
mark-SameEvents now k es = record {
  requests = λ j. tally-mark_published (is_request j) (λ e t. refl) now k es;
  webhooks = λ j. tally-mark_published (is_webhook j) (λ e t. refl) now k es;
  webhooks_as = λ j i. tally-mark_published (is_webhook_as j i) (λ e t. refl) now k es;
}

SameEvents-trans : {a b c : List OutboxEvent} → SameEvents a b → SameEvents b c → SameEvents a c
SameEvents-trans x y = record {
  requests = λ j. y.requests j ∙ x.requests j;
  webhooks = λ j. y.webhooks j ∙ x.webhooks j;
  webhooks_as = λ j i. y.webhooks_as j i ∙ x.webhooks_as j i;
}

publish_all-SameEvents :
    (broker : Broker) (now : ℕ) (batch rows rows' : List OutboxEvent)
    → (publish_all broker now batch rows).rows ≡ ok rows'
    → SameEvents rows rows'
unfolding publish_all
publish_all-SameEvents broker now [] rows rows' h =
    let same : rows' ≡ rows = cc in
    record { requests = λ j. rw same; webhooks = λ j. rw same; webhooks_as = λ j i. rw same }
publish_all-SameEvents broker now (e ∷ es) rows rows' h =
    SameEvents-trans (mark-SameEvents now e.id rows)
      (publish_all-SameEvents broker now es (mark_published now e.id rows) rows' (ground arith))

same-IsConsistent :
    (m : ℕ) (es es' : List OutboxEvent) (p : Payment)
    → SameEvents es es'
    → IsConsistent m es p
    → IsConsistent m es' p
same-IsConsistent m es es' p s r = record {
  payable = r.payable;
  requested = s.requests p.id ∙ r.requested;
  announced = s.webhooks p.id ∙ r.announced;
  announced_as = s.webhooks_as p.id p.webhook_event_id ∙ r.announced_as;
  named = r.named;
  answered = r.answered;
  dated = r.dated;
  sent = r.sent;
  leased = r.leased;
  lease_unknown = r.lease_unknown;
  reviewed = r.reviewed;
  review_unknown = r.review_unknown;
  spent = r.spent;
  lease_open = r.lease_open;
  fresh = r.fresh;
}

same-IsSound :
    (m : ℕ) (db : Database) (es : List OutboxEvent)
    → SameEvents db.outbox es
    → IsSound m db
    → IsSound m (record db { outbox = es })
same-IsSound m db es s h = record {
  unique = h.unique;
  rows = λ k p f. same-IsConsistent m db.outbox es p s (h.rows k p f);
  no_orphans = λ k f. (s.requests k ∙ (h.no_orphans k f).0, s.webhooks k ∙ (h.no_orphans k f).1);
}

-- One batch of the relay keeps the database sound, whatever the broker confirms.
pub relay-IsSound :
    (m : ℕ) (broker : Broker) (tx : Tx) (locked : ℕ → Bool) (batch_size : ℕ) (db : Database)
    → IsSound m db
    → IsSound m (process_batch broker tx locked batch_size db).2
unfolding process_batch
relay-IsSound m broker tx locked batch_size db h =
    elim (Result-cases (get_unpublished_batch locked batch_size db.outbox)) [
      | inl (e, q) ↦ rw q h
      | inr (batch, q) ↦ rw q (
          commit-IsSound m tx (length batch) _ db
            (λ changed c.
              let (es, rows, same) =
                bind-ok (publish_all broker tx.now batch db.outbox).rows
                  (λ es. record db { outbox = es }) c in
              rw same (
                same-IsSound m db es (publish_all-SameEvents broker tx.now batch db.outbox es rows)
                  h))
            h)
    ]
