-- ===== src/Services/Reconciliation/Lease.antt =====
-- The leases of the reconciliation: app/services/payment_reconciliation.py and
-- app/repositories/payment.py.
use async_payment_processing.Prelude.{
  ℕ, ◌≡◌, Bool, true, some, List, ◌<◌, refl, ◌≢◌, false, none, arith, sym, ap, ◌∙◌, inl, inr, map,
  Bool-cases,
}
use async_payment_processing.Models.{Payment}
use async_payment_processing.Models.Rows.{find, HasUniqueIds, find-map-some, map-HasUniqueIds}
use async_payment_processing.Repositories.Payments.{
  claimed_rows, ids, contains, lease_row, claim_reconciliation_batch,
  get_claimed_payment_for_update, is_claimable,
}
use async_payment_processing.Flow.Reconcile.{claimed_rows-IsCandidate, contains-ids, IsCandidate}

-- A claimed row is found with the lease in it.
claimed-leased :
    (locked : ℕ → Bool) (stale now token until batch_size db_now k : ℕ) (ps : List Payment)
    → HasUniqueIds ps
    → let (claimed, ps') =
        claim_reconciliation_batch locked stale now token until batch_size db_now ps in
      contains k claimed ≡ true
      → (p : Payment) × (find k ps' ≡ some p)
        × (p.reconciliation_lease_token ≡ some token)
        × (p.reconciliation_lease_until ≡ some until)
unfolding claim_reconciliation_batch
claimed-leased locked stale now token until batch_size db_now k ps h c =
    let claimed = ids (claimed_rows locked stale now batch_size ps) in
    let f = lease_row claimed db_now token until in
    let (q, same, both) =
      contains-ids (IsCandidate stale now ps) k (claimed_rows locked stale now batch_size ps)
        (claimed_rows-IsCandidate locked stale now batch_size ps h) c in
    let held : contains q.id claimed ≡ true = rw same c in
    (
      f q,
      sym (ap (λ j. find j (map f ps)) same) ∙ find-map-some f (λ p. ground arith) q.id ps q both.0,
      rw held refl,
      rw held refl,
    )

claimable_late :
    (stale now held : ℕ) (p : Payment)
    → is_claimable stale now p ≡ true
    → p.reconciliation_lease_until ≡ some held
    → now < held
    → ⊥
claimable_late stale now held p c e lt = ground arith

-- What a row with a lease keeps others from.
other_token :
    (k token token' t : ℕ) (ps : List Payment) (p : Payment)
    → find k ps ≡ some p
    → p.reconciliation_lease_token ≡ some token
    → token' ≢ token
    → get_claimed_payment_for_update k token' t ps ≡ none
unfolding get_claimed_payment_for_update
other_token k token token' t ps p f own ne = ground arith

not_claimed :
    (locked : ℕ → Bool) (stale now token until size db_now k held : ℕ) (ps : List Payment)
    (p : Payment)
    → HasUniqueIds ps
    → find k ps ≡ some p
    → p.reconciliation_lease_until ≡ some held
    → now < held
    → contains k (claim_reconciliation_batch locked stale now token until size db_now ps).0 ≡ false
unfolding claim_reconciliation_batch
not_claimed locked stale now token until size db_now k held ps p h f e lt =
    elim (Bool-cases (contains k (ids (claimed_rows locked stale now size ps)))) [
      | inr c ↦ c
      | inl c ↦
          let (q, same, both) =
            contains-ids (IsCandidate stale now ps) k (claimed_rows locked stale now size ps)
              (claimed_rows-IsCandidate locked stale now size ps h) c in
          let found : some p ≡ some q = sym f ∙ ap (λ j. find j ps) (sym same) ∙ both.0 in
          let eq : p ≡ q = cc in
          absurd (claimable_late stale now held p (rw (← eq) at (both.1)) e lt)
    ]

-- While the lease of a claim runs, no other worker can claim the payment again, and only the holder of
-- the claim's token can get it for an update: a second claim leaves it out, and a worker with another
-- token gets nothing, at any time.
pub lease_excludes :
    (locked locked' : ℕ → Bool)
    (stale now token until batch_size db_now stale' now' token' until' size' db_now' k : ℕ)
    (ps : List Payment)
    → HasUniqueIds ps
    → let (claimed, ps') =
        claim_reconciliation_batch locked stale now token until batch_size db_now ps in
      contains k claimed ≡ true
      → ((t : ℕ) → token' ≢ token → get_claimed_payment_for_update k token' t ps' ≡ none)
        × (now' < until
            → contains k
                (claim_reconciliation_batch locked' stale' now' token' until' size' db_now' ps').0
              ≡ false)
unfolding claim_reconciliation_batch
lease_excludes locked locked' stale now token until batch_size db_now stale' now' token' until'
      size' db_now' k ps h c =
    let (p, found, own, held) =
      claimed-leased locked stale now token until batch_size db_now k ps h c in
    (
      λ t ne. other_token k token token' t _ p found own ne,
      λ lt.
          not_claimed locked' stale' now' token' until' size' db_now' k until _ p
            (map-HasUniqueIds _ (λ q. ground arith) ps h) found held lt,
    )
