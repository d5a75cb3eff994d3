-- ===== src/Flow/Reconcile.antt =====
-- Reconciliation on a sound database: app/services/payment_reconciliation.py.
use async_payment_processing.Repositories.Session.{Tx, save, save_with_event, webhook_event}
use async_payment_processing.Services.Reconciliation.{
  Config, claim_batch, renew_claim, attempted, settled, persist_resolution,
}
use async_payment_processing.Flow.Rows.{
  commit-IsSound, commit_ok-IsSound, announced-IsConsistent, replace-IsSound,
  replace_with_event-IsSound, save-eq, save_with_event-eq,
}
use async_payment_processing.Prelude.{
  ℕ, ◌≡◌, inl, inr, Bool, true, ◌&&◌, not, some, List, [], ◌∷◌, arith, ◌==◌, Bool-cases, select,
  All, All-take, All-select, All-imp, ◌+◌, ◌-◌, sym, ap, ◌∙◌, ◌⊎◌, map, Option-cases, refl, false,
  Option, none, ◌++◌,
}
use async_payment_processing.Prelude.Sort.{sort_by, All-sort_by}
use async_payment_processing.Schemas.{is_unknown, ProviderPaymentResponse}
use async_payment_processing.Models.{Payment, OutboxEvent}
use async_payment_processing.Models.Rows.{
  find, find_self, find-map, find-none-map, map-HasUniqueIds, All-IsFound, IsFound, HasUniqueIds,
}
use async_payment_processing.Repositories.Payments.{
  is_claimable, payment_before, claimed_rows, ids, contains, lease_row, claim_reconciliation_batch,
  is_claimed_by, get_claimed_payment_for_update, renew_reconciliation_lease,
}
use async_payment_processing.Flow.{IsConsistent, HasUniqueIds, find, Database, IsSound}

-- A row of the table that the claim may take.
abbrev pub IsCandidate : ℕ → ℕ → List Payment → Payment → Type 0
IsCandidate stale now ps q = IsFound ps q × (is_claimable stale now q ≡ true)

pub claimed_rows-IsCandidate :
    (locked : ℕ → Bool) (stale now batch_size : ℕ) (ps : List Payment)
    → HasUniqueIds ps
    → All (IsCandidate stale now ps) (claimed_rows locked stale now batch_size ps)
unfolding claimed_rows
claimed_rows-IsCandidate locked stale now batch_size ps h =
    All-take (IsCandidate stale now ps) batch_size (sort_by payment_before found) (
      All-sort_by payment_before (IsCandidate stale now ps) found (
        All-imp (λ q both. (both.0, ground (arith, both.1))) found
          (All-select (IsFound ps) test ps (All-IsFound ps h))))
  where
    test : Payment → Bool
    test p = is_claimable stale now p && not (locked p.id)

    found : List Payment
    found = select test ps

pub contains-ids :
    (P : Payment → Type 0) (k : ℕ) (qs : List Payment)
    → All P qs
    → contains k (ids qs) ≡ true
    → (q : Payment) × (q.id ≡ k) × P q
unfolding contains
contains-ids P k [] a h = absurd (ground arith)
contains-ids P k (q ∷ qs) a h = elim (Bool-cases (q.id == k)) [
  | inl e ↦ (q, ground arith, a.0)
  | inr e ↦ contains-ids P k qs a.1 (ground arith)
]

leased-IsConsistent :
    (m token until db_now : ℕ) (es : List OutboxEvent) (p : Payment)
    → is_unknown p.status ≡ true
    → p.requires_manual_review ≡ false
    → IsConsistent m es p
    → IsConsistent m es (record p {
      reconciliation_lease_token = some token;
      reconciliation_lease_until = some until;
      updated_at = db_now;
    })
leased-IsConsistent m token until db_now es p u r h = ground arith

-- The row of a key after the claim: leased, and then it was one that the claim may take, or as it was.
lease_row-cases :
    (ps rows : List Payment) (stale now token until db_now : ℕ) (p : Payment)
    → All (IsCandidate stale now ps) rows
    → find p.id ps ≡ some p
    → ((is_claimable stale now p ≡ true)
        × (lease_row (ids rows) db_now token until p ≡ record p {
          reconciliation_lease_token = some token;
          reconciliation_lease_until = some until;
          updated_at = db_now;
        }))
      ⊎ (lease_row (ids rows) db_now token until p ≡ p)
lease_row-cases ps rows stale now token until db_now p a f =
    elim (Bool-cases (contains p.id (ids rows))) [
      | inr e ↦ inr (rw e)
      | inl e ↦
          let (q, same_id, both) = contains-ids (IsCandidate stale now ps) p.id rows a e in
          let same : some q ≡ some p = sym both.0 ∙ ap (λ j. find j ps) same_id ∙ f in
          let eq : q ≡ p = cc in inl (rw eq at (both.1), rw e)
    ]

-- The row that a lease holder gets is the one of the key, unknown and without manual review.
pub claimed-found :
    (k token now : ℕ) (ps : List Payment) (p : Payment)
    → get_claimed_payment_for_update k token now ps ≡ some p
    → (find k ps ≡ some p) × (is_claimed_by token now p ≡ true)
unfolding get_claimed_payment_for_update
claimed-found k token now ps p h = ground arith

module _ (m : ℕ) (c : Config) (tx : Tx) where
  claimed-IsSound :
      (rows : List Payment) (stale now token until : ℕ) (db : Database)
      → All (IsCandidate stale now db.payments) rows
      → IsSound m db
      → IsSound m
          (record db { payments = map (lease_row (ids rows) tx.db_now token until) db.payments })
  claimed-IsSound rows stale now token until db a h = record {
    unique = map-HasUniqueIds f same db.payments h.unique;
    rows = λ k r g.
        let (p, found, eq) = find-map f same k db.payments r g in
        rw eq
          (elim (lease_row-cases db.payments rows stale now token until tx.db_now p a
            (find_self k db.payments p found)) [
              | inl (t, e) ↦ rw e (
                  leased-IsConsistent m token until tx.db_now db.outbox p (ground arith)
                    (ground arith) (h.rows k p found))
              | inr e ↦ rw e (h.rows k p found)
            ]);
    no_orphans = λ k g. h.no_orphans k (find-none-map f same k db.payments g);
  }
    where
      f : Payment → Payment
      f = lease_row (ids rows) tx.db_now token until

      same : (p : Payment) → (f p).id ≡ p.id
      same p = ground arith

  pub claim_batch-IsSound :
      (locked : ℕ → Bool) (db : Database) → IsSound m db → IsSound m (claim_batch c tx locked db).1
  unfolding claim_batch claim_reconciliation_batch
  claim_batch-IsSound locked db h =
      commit_ok-IsSound m tx _ _ db
        (claimed-IsSound _ (tx.now - c.stale_after) tx.now tx.uuid (tx.now + c.lease_time) db
          (claimed_rows-IsCandidate locked (tx.now - c.stale_after) tx.now c.batch_size db.payments
            h.unique)
          h)
        h

  renewed-IsConsistent :
      (until : ℕ) (es : List OutboxEvent) (p : Payment) (token now : ℕ)
      → is_claimed_by token now p ≡ true
      → IsConsistent m es p
      → IsConsistent m es
          (record p { reconciliation_lease_until = some until; updated_at = tx.db_now })
  renewed-IsConsistent until es p token now t h = ground arith

  pub renew_claim-IsSound :
      (k token : ℕ) (db : Database) → IsSound m db → IsSound m (renew_claim c tx k token db).1
  unfolding renew_claim renew_reconciliation_lease
  renew_claim-IsSound k token db h =
      elim (Option-cases (get_claimed_payment_for_update k token tx.now db.payments)) [
        | inl e ↦ rw e h
        | inr (p, e) ↦
            let (f, t) = claimed-found k token tx.now db.payments p e in
            rw e (
              commit_ok-IsSound m tx true _ db
                (replace-IsSound m db p _ (find_self k db.payments p f)
                  (renewed-IsConsistent (tx.now + c.lease_time) db.outbox p token tx.now t
                    (h.rows k p f))
                  h)
                h)
      ]

module _ (c : Config) (tx : Tx) where
  attempted-IsConsistent :
      (es : List OutboxEvent) (p : Payment) (token now : ℕ)
      → is_claimed_by token now p ≡ true
      → IsConsistent c.max_attempts es p
      → IsConsistent c.max_attempts es
          (record (attempted c.max_attempts p) { updated_at = tx.db_now })
  attempted-IsConsistent es p token now t h = ground arith

  settled-IsConsistent :
      (response : ProviderPaymentResponse) (es : List OutboxEvent) (p : Payment)
      (token now processed_at : ℕ)
      → is_claimed_by token now p ≡ true
      → IsConsistent c.max_attempts es p
      → IsConsistent c.max_attempts
          (es ++ webhook_event tx.uuid p.id processed_at tx.db_now ∷ [])
          (record (settled processed_at tx.uuid response p) { updated_at = tx.db_now })
  settled-IsConsistent response es p token now processed_at t h =
      announced-IsConsistent c.max_attempts es p
        (record (settled processed_at tx.uuid response p) { updated_at = tx.db_now }) processed_at
        tx.db_now tx.uuid (ground arith) refl refl (ground arith) refl refl refl (ground arith) refl
        (ground arith) refl refl h

  pub persist_resolution-IsSound :
      (processed_at k token : ℕ) (response : Option ProviderPaymentResponse) (db : Database)
      → IsSound c.max_attempts db
      → IsSound c.max_attempts (persist_resolution c tx processed_at k token response db).1
  unfolding persist_resolution
  persist_resolution-IsSound processed_at k token none db h =
      elim (Option-cases (get_claimed_payment_for_update k token tx.now db.payments)) [
        | inl e ↦ rw e h
        | inr (p, e) ↦
            let (f, t) = claimed-found k token tx.now db.payments p e in
            rw e (
              commit-IsSound c.max_attempts tx false (save tx (attempted c.max_attempts p) db) db
                (λ changed q. rw (save-eq tx _ db changed q) (
                  replace-IsSound c.max_attempts db p _ (find_self k db.payments p f)
                    (attempted-IsConsistent db.outbox p token tx.now t (h.rows k p f)) h))
                h)
      ]
  persist_resolution-IsSound processed_at k token (some response) db h =
      elim (Option-cases (get_claimed_payment_for_update k token tx.now db.payments)) [
        | inl e ↦ rw e h
        | inr (p, e) ↦
            let (f, t) = claimed-found k token tx.now db.payments p e in
            rw e (
              commit-IsSound c.max_attempts tx true
                (save_with_event tx (settled processed_at tx.uuid response p)
                  (webhook_event tx.uuid p.id processed_at tx.db_now) db)
                db
                (λ changed q. rw (save_with_event-eq tx _ _ db changed q) (
                  replace_with_event-IsSound c.max_attempts db p _ (find_self k db.payments p f) _
                    refl
                    (settled-IsConsistent response db.outbox p token tx.now processed_at t
                      (h.rows k p f))
                    h))
                h)
      ]
