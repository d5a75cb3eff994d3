-- ===== src/Prelude/Sort.antt =====
-- `ORDER BY`: a stable insertion sort by a test that compares two rows.
use mathlib.Core.Path.{◌≡◌, refl, ◌∙◌}
use mathlib.Core.Logic.{inl, inr}
use mathlib.Core.Bool.{Bool, true, false}
use mathlib.Core.List.{List, [], ◌∷◌}
use native.Mathlib.Omega.{arith}
use async_payment_processing.Prelude.Tests.{if◌then◌else◌, Bool-cases}
use async_payment_processing.Prelude.Lists.{All, All-imp, tally}

module _ {ℓ} {A : Type ℓ} (before : A → A → Bool) where
  insert_by : A → List A → List A
  insert_by x [] = x ∷ []
  insert_by x (y ∷ ys) = if before x y then x ∷ y ∷ ys else y ∷ insert_by x ys

  unfoldable pub sort_by : List A → List A
  unfolding insert_by
  sort_by [] = []
  sort_by (x ∷ xs) = insert_by x (sort_by xs)

  -- Each member stands before all that follow it.
  abbrev pub IsSorted : List A → Type 0
  IsSorted [] = Unit
  IsSorted (x ∷ xs) = All (λ y. before x y ≡ true) xs × IsSorted xs

module _ {ℓ} {A : Type ℓ} (before : A → A → Bool) where
  All-insert_by :
      (P : A → Type 0) (x : A) (ys : List A) → P x → All P ys → All P (insert_by before x ys)
  unfolding insert_by
  All-insert_by P x [] px h = (px, tt)
  All-insert_by P x (y ∷ ys) px h = elim (Bool-cases (before x y)) [
    | inl e ↦ rw e (px, h)
    | inr e ↦ rw e (h.0, All-insert_by P x ys px h.1)
  ]

  -- What holds of all members holds of the sorted ones.
  pub All-sort_by : (P : A → Type 0) (xs : List A) → All P xs → All P (sort_by before xs)
  unfolding sort_by
  All-sort_by P [] h = tt
  All-sort_by P (x ∷ xs) h = All-insert_by P x (sort_by before xs) h.0 (All-sort_by P xs h.1)

  tally-insert_by :
      (test : A → Bool) (x : A) (ys : List A)
      → tally test (insert_by before x ys) ≡ tally test (x ∷ ys)
  unfolding insert_by
  tally-insert_by test x [] = refl
  tally-insert_by test x (y ∷ ys) = elim (Bool-cases (before x y)) [
    | inl e ↦ rw e
    | inr e ↦ rw e (omega (arith, tally-insert_by test x ys))
  ]

  -- Sorting keeps how often each kind of member occurs.
  pub tally-sort_by :
      (test : A → Bool) (xs : List A) → tally test (sort_by before xs) ≡ tally test xs
  unfolding sort_by
  tally-sort_by test [] = refl
  tally-sort_by test (x ∷ xs) =
      tally-insert_by test x (sort_by before xs) ∙ omega (arith, tally-sort_by test xs)

  All-insert_by-back :
      (P : A → Type 0) (x : A) (ys : List A) → All P (insert_by before x ys) → P x × All P ys
  unfolding insert_by
  All-insert_by-back P x [] h = h
  All-insert_by-back P x (y ∷ ys) h = elim (Bool-cases (before x y)) [
    | inl e ↦ rw e at h
    | inr e ↦
        let both = rw (e, insert_by) at h in
        let (px, rest) = All-insert_by-back P x ys both.1 in (px, (both.0, rest))
  ]

  -- What holds of the sorted members holds of all.
  pub All-sort_by-back : (P : A → Type 0) (xs : List A) → All P (sort_by before xs) → All P xs
  unfolding sort_by
  All-sort_by-back P [] h = tt
  All-sort_by-back P (x ∷ xs) h =
      let (px, rest) = All-insert_by-back P x (sort_by before xs) h in
      (px, All-sort_by-back P xs rest)

  module _ (total : (x y : A) → before x y ≡ false → before y x ≡ true)
      (trans : (x y z : A) → before x y ≡ true → before y z ≡ true → before x z ≡ true) where
    insert_by-IsSorted :
        (x : A) (ys : List A) → IsSorted before ys → IsSorted before (insert_by before x ys)
    unfolding insert_by
    insert_by-IsSorted x [] h = (tt, tt)
    insert_by-IsSorted x (y ∷ ys) h = elim (Bool-cases (before x y)) [
      | inl e ↦ rw e ((e, All-imp (λ z b. trans x y z e b) ys h.0), h)
      | inr e ↦ rw e (
        All-insert_by (λ z. before y z ≡ true) x ys (total x y e) h.0,
        insert_by-IsSorted x ys h.1,
      )
    ]

    pub sort_by-IsSorted : (xs : List A) → IsSorted before (sort_by before xs)
    unfolding sort_by
    sort_by-IsSorted [] = tt
    sort_by-IsSorted (x ∷ xs) = insert_by-IsSorted x (sort_by before xs) (sort_by-IsSorted xs)
