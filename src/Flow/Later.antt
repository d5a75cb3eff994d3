-- ===== src/Flow/Later.antt =====
-- The fields of a row that later transactions keep: app/services and app/worker.
use async_payment_processing.Prelude.{
  ℕ, ◌≤◌, ◌≡◌, refl, inl, inr, true, false, some, [], ◌∷◌, ◌++◌, arith, ◌==◌, is_some, Bool-cases,
  ok, err, Result, sym, ap, ◌∙◌, ==_iff,
}
use async_payment_processing.Schemas.{is_pending, is_terminal}
use async_payment_processing.Models.{Payment, Database}
use async_payment_processing.Models.Rows.{find, replace, find-replace, find-append_one}
use async_payment_processing.Repositories.Session.{Tx, commit}

-- A row that may stand where another stood before.
pub record IsLater (p p' : Payment) : Type 0 where
  pub same_id : p'.id ≡ p.id
  pub same_amount : p'.amount ≡ p.amount
  pub same_key : p'.idempotency_key ≡ p.idempotency_key
  pub same_fingerprint : p'.request_fingerprint ≡ p.request_fingerprint
  pub same_target : p'.webhook_url ≡ p.webhook_url
  pub final : is_terminal p.status ≡ true → p'.status ≡ p.status
  pub same_event : is_terminal p.status ≡ true → p'.webhook_event_id ≡ p.webhook_event_id
  pub same_answer : is_terminal p.status ≡ true → p'.provider_payment_id ≡ p.provider_payment_id
  pub same_date : is_terminal p.status ≡ true → p'.processed_at ≡ p.processed_at
  pub not_again : is_pending p.status ≡ false → is_pending p'.status ≡ false
  pub sent_once : is_some p.webhook_sent_at ≡ true → p'.webhook_sent_at ≡ p.webhook_sent_at
  pub attempts : p.reconciliation_attempts ≤ p'.reconciliation_attempts

pub IsLater-refl : (p : Payment) → IsLater p p
IsLater-refl p = ground arith

pub IsLater-trans : (p q r : Payment) → IsLater p q → IsLater q r → IsLater p r
IsLater-trans p q r a b = ground arith

-- Every row that was there is still there, or a later one is.
abbrev pub Advances : Database → Database → Type 0
Advances db db' =
    (k : ℕ) (p : Payment)
    → find k db.payments ≡ some p
    → (p' : Payment) × (find k db'.payments ≡ some p') × IsLater p p'

pub Advances-refl : (db : Database) → Advances db db
Advances-refl db k p f = (p, f, IsLater-refl p)

pub Advances-trans : (a b c : Database) → Advances a b → Advances b c → Advances a c
Advances-trans a b c x y k p f =
    let (q, g, l) = x k p f in let (r, g', l') = y k q g in (r, g', IsLater-trans p q r l l')

pub replace-Advances :
    (db db' : Database) (p q : Payment)
    → find q.id db.payments ≡ some p
    → IsLater p q
    → db'.payments ≡ replace q db.payments
    → Advances db db'
replace-Advances db db' p q found l e k r f = elim (Bool-cases (q.id == k)) [
  | inl t ↦ (q, rw e (ground (arith, find-replace k q db.payments, f)), same_row r t f)
  | inr t ↦ (r, rw e (ground (arith, find-replace k q db.payments, f)), IsLater-refl r)
]
  where
    same_row : (r : Payment) → (q.id == k) ≡ true → find k db.payments ≡ some r → IsLater r q
    same_row r t f =
        let both : some r ≡ some p =
          sym f ∙ ap (λ j. find j db.payments) (sym ((==_iff q.id k).0 t)) ∙ found in
        let eq : r ≡ p = cc in rw eq l

pub append-Advances :
    (db db' : Database) (q : Payment) → db'.payments ≡ db.payments ++ q ∷ [] → Advances db db'
append-Advances db db' q e k p f =
    (p, rw e (ground (arith, find-append_one k db.payments q, f)), IsLater-refl p)

pub commit-Advances {ℓ} :
    {A : Type ℓ} (tx : Tx) (a : A) (r : Result Database) (db : Database)
    → ((changed : Database) → r ≡ ok changed → Advances db changed)
    → Advances db (commit tx a r db).1
unfolding commit
commit-Advances tx a (err e) db new = Advances-refl db
commit-Advances tx a (ok changed) db new = elim (Bool-cases tx.alive) [
  | inl e ↦ rw e (new changed refl)
  | inr e ↦ rw e (Advances-refl db)
]
