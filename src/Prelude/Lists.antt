-- ===== src/Prelude/Lists.antt =====
-- Lists measured by native numbers, under the library's names, and predicates on all members.
use Prim.Native.Nat.{ℕ, zero, suc, ◌+◌, ◌≤◌, min}
use mathlib.Core.Path.{◌≡◌}
use mathlib.Core.Bool.{Bool, true}
use mathlib.Core.Logic.{◌⊎◌, inl, inr}
use mathlib.Core.List.{List, [], ◌∷◌, ◌++◌}
use native.Mathlib.Omega.{arith}
use async_payment_processing.Prelude.Tests.{if◌then◌else◌, Bool-cases}

module _ {ℓ} {A : Type ℓ} where
  abbrev pub length : List A → ℕ
  length [] = 0
  length (x ∷ xs) = suc (length xs)

  abbrev pub take : ℕ → List A → List A
  take zero xs = []
  take (suc n) [] = []
  take (suc n) (x ∷ xs) = x ∷ take n xs

  -- The members that pass a test.
  abbrev pub select : (A → Bool) → List A → List A
  select test [] = []
  select test (x ∷ xs) = if test x then x ∷ select test xs else select test xs

  -- How many members pass a test.
  abbrev pub tally : (A → Bool) → List A → ℕ
  tally test [] = 0
  tally test (x ∷ xs) = (if test x then 1 else 0) + tally test xs

  pub length-append : (xs ys : List A) → length (xs ++ ys) ≡ length xs + length ys
  length-append [] ys = omega arith
  length-append (x ∷ xs) ys = omega (arith, length-append xs ys)

  pub length-take-le : (n : ℕ) (xs : List A) → length (take n xs) ≤ n
  length-take-le zero xs = omega arith
  length-take-le (suc n) [] = omega arith
  length-take-le (suc n) (x ∷ xs) = omega (arith, length-take-le n xs)

  pub tally-append :
      (test : A → Bool) (xs ys : List A) → tally test (xs ++ ys) ≡ tally test xs + tally test ys
  tally-append test [] ys = omega arith
  tally-append test (x ∷ xs) ys = omega (arith, tally-append test xs ys)

  -- A stricter test counts no more.
  pub tally-le :
      (p q : A → Bool)
      → ((x : A) → p x ≡ true → q x ≡ true)
      → (xs : List A) → tally p xs ≤ tally q xs
  tally-le p q imp [] = omega arith
  tally-le p q imp (x ∷ xs) = ground (arith, imp x, tally-le p q imp xs)

  -- Each member that passes the first test passes one of the others.
  pub tally-le-add :
      (p q r : A → Bool)
      → ((x : A) → p x ≡ true → (q x ≡ true) ⊎ (r x ≡ true))
      → (xs : List A) → tally p xs ≤ tally q xs + tally r xs
  tally-le-add p q r imp [] = omega arith
  tally-le-add p q r imp (x ∷ xs) = ground (arith, imp x, tally-le-add p q r imp xs)

module _ {ℓ} {A : Type ℓ} where
  abbrev pub All : (A → Type 0) → List A → Type 0
  All P [] = Unit
  All P (x ∷ xs) = P x × All P xs

  pub All-append : (P : A → Type 0) (xs ys : List A) → All P xs → All P ys → All P (xs ++ ys)
  All-append P [] ys hx hy = hy
  All-append P (x ∷ xs) ys hx hy = (hx.0, All-append P xs ys hx.1 hy)

  pub All-take : (P : A → Type 0) (n : ℕ) (xs : List A) → All P xs → All P (take n xs)
  All-take P zero xs h = tt
  All-take P (suc n) [] h = tt
  All-take P (suc n) (x ∷ xs) h = (h.0, All-take P n xs h.1)

  pub All-select :
      (P : A → Type 0) (test : A → Bool) (xs : List A)
      → All P xs
      → All (λ x. P x × (test x ≡ true)) (select test xs)
  All-select P test [] h = tt
  All-select P test (x ∷ xs) h = elim (Bool-cases (test x)) [
    | inl e ↦ rw e ((h.0, e), All-select P test xs h.1)
    | inr e ↦ rw e (All-select P test xs h.1)
  ]

  pub All-imp : {P Q : A → Type 0} → ((x : A) → P x → Q x) → (xs : List A) → All P xs → All Q xs
  All-imp f [] h = tt
  All-imp f (x ∷ xs) h = (f x h.0, All-imp f xs h.1)

  -- What holds of the selected members holds of each that passes the test.
  pub All-select-back :
      (P : A → Type 0) (test : A → Bool) (xs : List A)
      → All P (select test xs)
      → All (λ x. test x ≡ true → P x) xs
  All-select-back P test [] h = tt
  All-select-back P test (x ∷ xs) h = elim (Bool-cases (test x)) [
    | inl e ↦ let both = rw (e, select) at h in ((λ t. both.0), All-select-back P test xs both.1)
    | inr e ↦
        let rest = rw (e, select) at h in
        ((λ t. absurd (ground arith)), All-select-back P test xs rest)
  ]

  pub tally-select :
      (test : A → Bool) (xs : List A) → tally (λ x. true) (select test xs) ≡ tally test xs
  tally-select test [] = omega arith
  tally-select test (x ∷ xs) = elim (Bool-cases (test x)) [
    | inl e ↦ rw e (omega (arith, tally-select test xs))
    | inr e ↦ rw e (omega (arith, tally-select test xs))
  ]

  pub length-take-tally : (n : ℕ) (xs : List A) → length (take n xs) ≡ min n (tally (λ x. true) xs)
  length-take-tally zero xs = omega arith
  length-take-tally (suc n) [] = omega arith
  length-take-tally (suc n) (x ∷ xs) = omega (arith, length-take-tally n xs)

  -- A member that passes a test of its own is counted by it.
  pub All-tally : (f : A → A → Bool) (xs : List A) → All (λ x. f x x ≡ true → 1 ≤ tally (f x) xs) xs
  All-tally f [] = tt
  All-tally f (y ∷ ys) =
      ((λ e. ground arith), All-imp (λ x h e. omega (arith, h e)) ys (All-tally f ys))

  -- A test that some member passes, and what holds of all members.
  pub tally-All :
      (test : A → Bool) (P : A → Type 0) (xs : List A)
      → 1 ≤ tally test xs
      → All P xs
      → (x : A) × (test x ≡ true) × P x
  tally-All test P [] h a = absurd (omega arith)
  tally-All test P (x ∷ xs) h a = elim (Bool-cases (test x)) [
    | inl e ↦ (x, e, a.0)
    | inr e ↦ tally-All test P xs (let rest = rw e at h in omega arith) a.1
  ]
