-- ===== src/Api/Access.antt =====
-- Who may use the endpoints, and what a refusal leaves: app/api.
use async_payment_processing.Prelude.{
  String, ◌≡◌, ◌≢◌, ◌↔◌, true, Option, none, some, if◌then◌else◌, unexpected, ℕ, eq_iff, refl, ap,
  ◌⊎◌, inl, inr, arith, Bool-cases,
}
use text.Mathlib.Text.{◌==◌ as text_eq}
use async_payment_processing.Models.{Database}
use async_payment_processing.Services.Create
use async_payment_processing.Api.Text.{is_ascii}
use async_payment_processing.Api.Answer.{Answer, answered, http_error, raised, verify_api_key}
use async_payment_processing.Api.Payments.{PaymentAccepted}

-- With an ASCII key in the settings a request passes exactly when its header is that key; a missing
-- header or another ASCII text is answered 401, and a text that is not ASCII raises the TypeError
-- of `compare_digest`.
pub verify_api_key_lem :
    (expected : String) (x : Option String)
    → is_ascii expected ≡ true
    → ((verify_api_key expected x ≡ answered tt) ↔ (x ≡ some expected))
      × (x ≡ none → verify_api_key expected x ≡ http_error 401)
      × ((key : String)
          → x ≡ some key
          → key ≢ expected
          → verify_api_key expected x
            ≡ (if is_ascii key then http_error 401 else raised unexpected))
unfolding verify_api_key
verify_api_key_lem expected none ascii = ((λ h. cc, λ h. cc), λ h. refl, λ key h ne. cc)
verify_api_key_lem expected (some key) ascii =
    let (same, back) = eq_iff key expected in
    elim (Bool-cases (is_ascii key)) [
      | inl e ↦ elim (Bool-cases (text_eq key expected)) [
        | inl t ↦
            rw (ascii, e, t)
              ((λ h. ap some (same t), λ h. refl), λ h. cc, λ k h ne. absurd (ground (arith, same)))
        | inr f ↦
            rw (ascii, e, f) ((λ h. cc, λ h. ground (arith, back)), λ h. cc, λ k h ne. ground arith)
      ]
      | inr e ↦ rw (ascii, e) ((λ h. cc, λ h. ground arith), λ h. cc, λ k h ne. ground arith)
    ]

-- An error code stands for a refusal that has written nothing.
abbrev IsClean : (Database → Database) → Database → Answer PaymentAccepted × Database → Type 0
IsClean others db x =
    (code : ℕ)
    → x.0 ≡ http_error code
    → ((code ≡ 401) ⊎ (code ≡ 409) ⊎ (code ≡ 422)) × ((x.1 ≡ db) ⊎ (x.1 ≡ others db))
