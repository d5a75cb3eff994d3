-- ===== src/Api/Answer.antt =====
-- app/api/dependencies.py and the answers of the endpoints.
use async_payment_processing.Prelude.{
  ℕ, String, Bool, true, false, ◌&&◌, Option, none, some, if◌then◌else◌, ok, err, Error, Result,
  unexpected, ◌≡◌, refl, ◌⊎◌, inl, inr,
}
use text.Mathlib.Text.{◌==◌ as text_eq}
use async_payment_processing.Api.Text.{is_ascii}

-- What an endpoint ends with: its result, an HTTPException, or another exception.
pub data Answer {ℓ} (A : Type ℓ) : Type ℓ where
  answered : A → Answer A
  http_error : (status_code : ℕ) → Answer A
  raised : Error → Answer A

pub Answer-cases {ℓ} :
    {A : Type ℓ} (x : Answer A)
    → ((a : A) × (x ≡ answered a))
      ⊎ ((code : ℕ) × (x ≡ http_error code))
      ⊎ ((e : Error) × (x ≡ raised e))
Answer-cases (answered a) = inl (a, refl)
Answer-cases (http_error code) = inr (inl (code, refl))
Answer-cases (raised e) = inr (inr (e, refl))

-- `secrets.compare_digest` on texts, which raises TypeError unless both are ASCII.
abbrev pub compare_digest : String → String → Result Bool
compare_digest a b = if is_ascii a && is_ascii b then ok (text_eq a b) else err unexpected

key_answer : Result Bool → Answer (Unit {0})
key_answer (ok true) = answered tt
key_answer (ok false) = http_error 401
key_answer (err e) = raised e

-- `verify_api_key`: the expected key, and the header `X-API-Key`.
unfoldable pub verify_api_key : String → Option String → Answer (Unit {0})
unfolding key_answer
verify_api_key expected none = http_error 401
verify_api_key expected (some key) = key_answer (compare_digest key expected)
