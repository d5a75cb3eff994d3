-- ===== src/Flow/Batch.antt =====
-- A whole batch of the reconciliation on a sound database: app/services/payment_reconciliation.py,
-- `process_batch`.
use async_payment_processing.Prelude.{
  ℕ, ◌≡◌, ◌⊎◌, inl, inr, Bool, Option, List, [], ◌∷◌, Bool-cases, Result-cases, All, caught, ok,
  ◌>>◌,
}
use async_payment_processing.Breaker
use async_payment_processing.Breaker.{Breaker}
use async_payment_processing.Schemas.{ProviderPaymentResponse}
use async_payment_processing.Models.{Database}
use async_payment_processing.Repositories.Session.{Tx}
use async_payment_processing.Services.Reconciliation.{
  Config, Env, claim_batch, renew_claim, caught_lookup, counted, persist_resolution, reconcile_one,
  reconcile_all, process_batch,
}
use async_payment_processing.Services.Reconciliation.Loop.{Turn, run}
use async_payment_processing.Flow.{IsSound}
use async_payment_processing.Flow.Reconcile.{
  claim_batch-IsSound, renew_claim-IsSound, persist_resolution-IsSound,
}

-- What others commit keeps the database sound.
abbrev pub Keeps : ℕ → (Database → Database) → Type 0
Keeps m f = (t : Database) → IsSound m t → IsSound m (f t)

module _ (c : Config) (env : ℕ → Env) where
  -- Of everything that others do while a batch is worked off.
  abbrev pub AllKeep : Type 0
  AllKeep = (k : ℕ) → Keeps c.max_attempts (env k).before × Keeps c.max_attempts (env k).others

module _ (c : Config) where
  -- After the renewal nothing is written, or what a lookup gave is persisted.
  pub reconcile_one-db :
      (e : Env) (k token : ℕ) (db : Database) (b : Breaker)
      → let db' = (renew_claim c e.renew_tx k token db).1 in
        ((reconcile_one c e k token db b).1 ≡ db')
        ⊎ ((reconcile_one c e k token db b).1 ≡ e.others db')
        ⊎ ((answer : Option ProviderPaymentResponse) × (caught_lookup
                (Breaker.call e.started e.lookup e.other_calls e.ended b).0
              ≡ ok answer)
            × ((reconcile_one c e k token db b).1
                ≡ (persist_resolution c e.persist_tx e.processed_at k token answer
                    (e.others db')).1))
  unfolding reconcile_one
  reconcile_one-db e k token db b = elim (Result-cases (renew_claim c e.renew_tx k token db).0) [
    | inl (x, q) ↦ inl (rw q)
    | inr (valid, q) ↦ elim (Bool-cases valid) [
      | inr lost ↦ inl (rw (q, lost))
      | inl held ↦
          elim (Result-cases
            (caught_lookup (Breaker.call e.started e.lookup e.other_calls e.ended b).0)) [
              | inl (x, r) ↦ inr (inl (rw (q, held, r)))
              | inr (answer, r) ↦ inr (inr (answer, r, rw (q, held, r)))
            ]
    ]
  ]

  reconcile_one-IsSound :
      (e : Env) (k token : ℕ) (db : Database) (b : Breaker)
      → Keeps c.max_attempts e.others
      → IsSound c.max_attempts db
      → IsSound c.max_attempts (reconcile_one c e k token db b).1
  reconcile_one-IsSound e k token db b keep h =
      let h' = renew_claim-IsSound c.max_attempts c e.renew_tx k token db h in
      elim (reconcile_one-db e k token db b) [
        | inl same ↦ rw same h'
        | inr (inl same) ↦ rw same (keep _ h')
        | inr (inr (answer, asked, same)) ↦
            rw same (
              persist_resolution-IsSound c e.persist_tx e.processed_at k token answer _ (keep _ h'))
      ]

  reconcile_all-IsSound :
      (env : ℕ → Env) (ks : List ℕ) (token : ℕ) (db : Database) (b : Breaker)
      → AllKeep c env
      → IsSound c.max_attempts db
      → IsSound c.max_attempts (reconcile_all c env ks token db b).1
  unfolding reconcile_all
  reconcile_all-IsSound env [] token db b keep h = h
  reconcile_all-IsSound env (k ∷ ks) token db b keep h =
      let one = reconcile_one c (env k) k token ((env k).before db) b in
      let h' =
        reconcile_one-IsSound (env k) k token ((env k).before db) b (keep k).1 ((keep k).0 db h) in
      let rest = reconcile_all-IsSound env ks token one.1 one.2 keep h' in
      elim (Result-cases (counted one.0)) [
        | inl (x, q) ↦ rw (q, reconcile_all) h'
        | inr (n, q) ↦ rw (q, reconcile_all) rest
      ]

  -- A batch of the reconciliation keeps the database sound on each of its ways, lost leases, failed
  -- lookups, exceptions and a cancellation included, if what others commit meanwhile keeps it sound.
  pub batch-IsSound :
      (tx : Tx) (locked : ℕ → Bool) (env : ℕ → Env) (db : Database) (b : Breaker)
      → AllKeep c env
      → IsSound c.max_attempts db
      → IsSound c.max_attempts (process_batch c tx locked env db b).1
  unfolding process_batch
  batch-IsSound tx locked env db b keep h =
      let h' = claim_batch-IsSound c.max_attempts c tx locked db h in
      elim (Result-cases (claim_batch c tx locked db).0) [
        | inl (x, q) ↦ rw q h'
        | inr ((token, ks), q) ↦ rw q (reconcile_all-IsSound env ks token _ b keep h')
      ]

-- What others commit before a turn of the loop, and while it works, keeps the database sound.
abbrev pub AllQuiet : Config → List Turn → Type 0
AllQuiet c ts = All (λ t. Keeps c.max_attempts t.before × AllKeep c t.env) ts

-- The loop of the reconciliation keeps the database sound for any number of turns, failed and cancelled
-- ones included, if what others commit before and during them keeps it sound.
pub run-IsSound :
    (c : Config) (ts : List Turn) (db : Database) (b : Breaker)
    → AllQuiet c ts
    → IsSound c.max_attempts db
    → IsSound c.max_attempts (run c ts db b).1
unfolding run
run-IsSound c [] db b keep h = h
run-IsSound c (t ∷ ts) db b ((before, during), keep) h =
    let one = process_batch c t.tx t.locked t.env (t.before db) (t.other_calls b) in
    let h' =
      batch-IsSound c t.tx t.locked t.env (t.before db) (t.other_calls b) during (before db h) in
    let rest = run-IsSound c ts one.1 one.2 keep h' in
    elim (Result-cases (caught one.0 >> t.wait)) [
      | inl (x, q) ↦ rw (q, run) h'
      | inr (done, q) ↦ rw (q, run) rest
    ]
