-- ===== src/Prelude/Errors.antt =====
-- The exceptions that the program raises and catches, and results that may be one.
use Prim.Native.Nat.{ℕ}
use mathlib.Core.Path.{◌≡◌, refl}
use mathlib.Core.Logic.{◌⊎◌, inl, inr}
use mathlib.Core.Bool.{Bool}
use async_payment_processing.Prelude.Tests.{if◌then◌else◌}

-- `cancelled` is asyncio.CancelledError and `base_exception` any other exception outside Exception;
-- `unexpected` is any Exception of a class that the program does not name.
pub data Error : Type 0 where
  provider_permanent : (status_code : ℕ) → Error
  provider_unavailable provider_ambiguous_outcome breaker_open : Error
  webhook_retryable webhook_permanent : Error
  permanent_event retryable_event : Error
  idempotency_conflict integrity_error database_error : Error
  value_error runtime_error validation_error : Error
  unexpected cancelled base_exception : Error

pub data Result {ℓ} (A : Type ℓ) : Type ℓ where
  ok : A → Result A
  err : Error → Result A

-- What follows is left out after an exception.
infixl 5 ◌>>=◌ ◌>>◌
abbrev pub ◌>>=◌ {ℓ κ} : {A : Type ℓ} {B : Type κ} → Result A → (A → Result B) → Result B
err raised >>= next = err raised
ok result >>= next = next result

abbrev pub ◌>>◌ {ℓ} : {B : Type ℓ} → Result (Unit {0}) → Result B → Result B
first >> second = first >>= λ done. second

-- `if test: raise e`
abbrev pub raise_if : Bool → Error → Result (Unit {0})
raise_if test e = if test then err e else ok tt

-- `except Exception` around a turn of a loop: an exception is logged, and the loop goes on; a
-- cancellation ends it.
abbrev pub caught {ℓ} : {A : Type ℓ} → Result A → Result (Unit {0})
caught (ok result) = ok tt
caught (err cancelled) = err cancelled
caught (err base_exception) = err base_exception
caught (err e) = ok tt

pub Result-cases {ℓ} :
    {A : Type ℓ} (r : Result A) → ((e : Error) × (r ≡ err e)) ⊎ ((a : A) × (r ≡ ok a))
Result-cases (err e) = inl (e, refl)
Result-cases (ok a) = inr (a, refl)

-- Inversion of a result that was mapped.
pub bind-ok {ℓ κ} :
    {A : Type ℓ} {B : Type κ} (r : Result A) (f : A → B) {b : B}
    → (r >>= λ a. ok (f a)) ≡ ok b
    → (a : A) × (r ≡ ok a) × (b ≡ f a)
bind-ok (ok a) f h = (a, refl, cc)
bind-ok (err e) f h = cc
