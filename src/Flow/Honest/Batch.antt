-- ===== src/Flow/Honest/Batch.antt =====
-- What the reconciliation writes: app/services/payment_reconciliation.py.
use async_payment_processing.Prelude.{
  ℕ, ◌≡◌, refl, inl, inr, Bool, Option, none, some, List, [], ◌∷◌, ok, err, Result, Result-cases,
  All, caught, arith, ◌>>◌,
}
use async_payment_processing.Breaker.{Breaker}
use async_payment_processing.Schemas.{ProviderPaymentResponse}
use async_payment_processing.Models.{Database}
use async_payment_processing.Repositories.Session.{Tx}
use async_payment_processing.Services.Reconciliation.{
  Config, Env, claim_batch, caught_lookup, counted, persist_resolution, reconcile_one,
  reconcile_all, process_batch,
}
use async_payment_processing.Services.Reconciliation.Loop.{Turn, run}
use async_payment_processing.Flow.Agreement.{Agrees, Step-Agrees}
use async_payment_processing.Flow.Batch.{reconcile_one-db}
use async_payment_processing.Flow.Reach.{claim, renew, persist}
use async_payment_processing.Flow.Honest.{call-ok}

caught_lookup-some :
    (x : Result (Option ProviderPaymentResponse)) (r : ProviderPaymentResponse)
    → caught_lookup x ≡ ok (some r)
    → x ≡ ok (some r)
unfolding caught_lookup
caught_lookup-some (ok answer) r h = h
caught_lookup-some (err e) r h = absurd (ground arith)

module _ (given : ℕ → ProviderPaymentResponse → Type 0) where
  -- What others commit keeps the agreement, and what a lookup answers was given.
  abbrev pub KeepsAgreement : (Database → Database) → Type 0
  KeepsAgreement f = (t : Database) → Agrees given t → Agrees given (f t)

  abbrev pub IsTrue : ℕ → Env → Type 0
  IsTrue k e =
      KeepsAgreement e.before
      × KeepsAgreement e.others
      × ((r : ProviderPaymentResponse) → e.lookup ≡ ok (some r) → given k r)

  abbrev pub AllTrue : List Turn → Type 0
  AllTrue ts = All (λ t. KeepsAgreement t.before × ((k : ℕ) → IsTrue k (t.env k))) ts

module _ (c : Config) (given : ℕ → ProviderPaymentResponse → Type 0) where
  persist-Agrees :
      (tx : Tx) (at k token : ℕ) (answer : Option ProviderPaymentResponse) (db : Database)
      → ((r : ProviderPaymentResponse) → answer ≡ some r → given k r)
      → Agrees given db
      → Agrees given (persist_resolution c tx at k token answer db).1
  persist-Agrees tx at k token none db gives h =
      Step-Agrees {c = c} {t = db} given (persist tx at k token none) tt h
  persist-Agrees tx at k token (some r) db gives h =
      Step-Agrees {c = c} {t = db} given (persist tx at k token (some r)) (gives r refl) h

  reconcile_one-Agrees :
      (e : Env) (k token : ℕ) (db : Database) (b : Breaker)
      → IsTrue given k e
      → Agrees given db
      → Agrees given (reconcile_one c e k token db b).1
  reconcile_one-Agrees e k token db b (before, during, gives) h =
      let h' = Step-Agrees {c = c} {t = db} given (renew e.renew_tx k token) tt h in
      elim (reconcile_one-db c e k token db b) [
        | inl same ↦ rw same h'
        | inr (inl same) ↦ rw same (during _ h')
        | inr (inr (answer, asked, same)) ↦ rw same (
            persist-Agrees e.persist_tx e.processed_at k token answer _
              (λ r q. gives r (
                call-ok e.started e.ended e.lookup e.other_calls b (some r)
                  (caught_lookup-some _ r (rw q at asked))))
              (during _ h'))
      ]

  reconcile_all-Agrees :
      (env : ℕ → Env) (ks : List ℕ) (token : ℕ) (db : Database) (b : Breaker)
      → ((k : ℕ) → IsTrue given k (env k))
      → Agrees given db
      → Agrees given (reconcile_all c env ks token db b).1
  unfolding reconcile_all
  reconcile_all-Agrees env [] token db b fair h = h
  reconcile_all-Agrees env (k ∷ ks) token db b fair h =
      let one = reconcile_one c (env k) k token ((env k).before db) b in
      let h' =
        reconcile_one-Agrees (env k) k token ((env k).before db) b (fair k) ((fair k).0 db h) in
      let rest = reconcile_all-Agrees env ks token one.1 one.2 fair h' in
      elim (Result-cases (counted one.0)) [
        | inl (x, q) ↦ rw (q, reconcile_all) h'
        | inr (n, q) ↦ rw (q, reconcile_all) rest
      ]

  batch-Agrees :
      (tx : Tx) (locked : ℕ → Bool) (env : ℕ → Env) (db : Database) (b : Breaker)
      → ((k : ℕ) → IsTrue given k (env k))
      → Agrees given db
      → Agrees given (process_batch c tx locked env db b).1
  unfolding process_batch
  batch-Agrees tx locked env db b fair h =
      let h' = Step-Agrees {c = c} {t = db} given (claim tx locked) tt h in
      elim (Result-cases (claim_batch c tx locked db).0) [
        | inl (x, q) ↦ rw q h'
        | inr ((token, ks), q) ↦ rw q (reconcile_all-Agrees env ks token _ b fair h')
      ]

  pub run-Agrees :
      (ts : List Turn) (db : Database) (b : Breaker)
      → AllTrue given ts
      → Agrees given db
      → Agrees given (run c ts db b).1
  unfolding run
  run-Agrees [] db b fair h = h
  run-Agrees (t ∷ ts) db b ((before, during), fair) h =
      let one = process_batch c t.tx t.locked t.env (t.before db) (t.other_calls b) in
      let h' =
        batch-Agrees t.tx t.locked t.env (t.before db) (t.other_calls b) during (before db h) in
      let rest = run-Agrees ts one.1 one.2 fair h' in
      elim (Result-cases (caught one.0 >> t.wait)) [
        | inl (x, q) ↦ rw (q, run) h'
        | inr (done, q) ↦ rw (q, run) rest
      ]
