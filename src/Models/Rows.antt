-- ===== src/Models/Rows.antt =====
-- Rows by their primary key: reading one, and writing one back.
use async_payment_processing.Prelude.{
  ℕ, ◌≡◌, refl, Option, none, some, List, [], ◌∷◌, ◌++◌, arith, if◌then◌else◌, ◌==◌, is_some, inl,
  inr, map, Bool-cases, All, ◌≢◌, ◌⊎◌, ap, ◌∙◌,
}
use async_payment_processing.Models.{Payment}

-- `select(Payment).where(Payment.id == ...)`: the key is primary, so the first row is the only one.
unfoldable pub find : ℕ → List Payment → Option Payment
find k [] = none
find k (p ∷ ps) = if p.id == k then some p else find k ps

-- The row with the key of `p` becomes `p`.
unfoldable pub replace : Payment → List Payment → List Payment
replace p [] = []
replace p (q ∷ qs) = if q.id == p.id then p ∷ qs else q ∷ replace p qs

pub find-id : (k : ℕ) (ps : List Payment) (p : Payment) → find k ps ≡ some p → p.id ≡ k
unfolding find
find-id k [] p h = cc
find-id k (q ∷ ps) p h = ground (arith, find-id k ps p)

-- A row is found by its own key.
pub find_self :
    (k : ℕ) (ps : List Payment) (p : Payment) → find k ps ≡ some p → find p.id ps ≡ some p
find_self k ps p h = ap (λ j. find j ps) (find-id k ps p h) ∙ h

pub find-replace :
    (k : ℕ) (p : Payment) (ps : List Payment)
    → find k (replace p ps)
      ≡ (if p.id == k then (if is_some (find k ps) then some p else none) else find k ps)
unfolding find replace
find-replace k p [] = ground arith
find-replace k p (q ∷ qs) = ground (arith, find-replace k p qs)

pub find-append_one :
    (k : ℕ) (ps : List Payment) (p : Payment)
    → find k (ps ++ p ∷ [])
      ≡ (if is_some (find k ps) then find k ps else if p.id == k then some p else none)
unfolding find
find-append_one k [] p = refl
find-append_one k (q ∷ qs) p = ground (arith, find-append_one k qs p)

-- A change of every row that keeps the keys.
pub find-map :
    (f : Payment → Payment)
    → ((p : Payment) → (f p).id ≡ p.id)
    → (k : ℕ) (ps : List Payment) (p' : Payment) → find k (map f ps) ≡ some p'
    → (p : Payment) × (find k ps ≡ some p) × (p' ≡ f p)
unfolding find
find-map f same k [] p' h = cc
find-map f same k (p ∷ ps) p' h = elim (Bool-cases (p.id == k)) [
  | inl e ↦ (p, ground arith, ground (arith, same p))
  | inr e ↦
      let (q, fq, eq) = find-map f same k ps p' (ground (arith, same p)) in (q, ground arith, eq)
]

-- No two rows have the same key.
abbrev pub HasUniqueIds : List Payment → Type 0
HasUniqueIds [] = Unit
HasUniqueIds (p ∷ ps) = (find p.id ps ≡ none) × HasUniqueIds ps

pub replace-HasUniqueIds :
    (p : Payment) (ps : List Payment) → HasUniqueIds ps → HasUniqueIds (replace p ps)
unfolding replace find
replace-HasUniqueIds p [] h = tt
replace-HasUniqueIds p (q ∷ qs) h =
    ground (arith, replace-HasUniqueIds p qs h.1, find-replace q.id p qs)

pub append-HasUniqueIds :
    (ps : List Payment) (p : Payment)
    → HasUniqueIds ps
    → find p.id ps ≡ none
    → HasUniqueIds (ps ++ p ∷ [])
unfolding find
append-HasUniqueIds [] p h fresh = (refl, tt)
append-HasUniqueIds (q ∷ qs) p h fresh =
    ground (arith, append-HasUniqueIds qs p h.1, find-append_one q.id qs p)

find-map-none :
    (f : Payment → Payment)
    → ((p : Payment) → (f p).id ≡ p.id)
    → (k : ℕ) (ps : List Payment) → find k ps ≡ none
    → find k (map f ps) ≡ none
unfolding find
find-map-none f same k [] h = refl
find-map-none f same k (p ∷ ps) h = ground (arith, same p, find-map-none f same k ps)

pub map-HasUniqueIds :
    (f : Payment → Payment)
    → ((p : Payment) → (f p).id ≡ p.id)
    → (ps : List Payment) → HasUniqueIds ps
    → HasUniqueIds (map f ps)
map-HasUniqueIds f same [] h = tt
map-HasUniqueIds f same (p ∷ ps) h =
    (rw (same p) (find-map-none f same p.id ps h.0), map-HasUniqueIds f same ps h.1)

-- Every row is the one that its key finds.
abbrev pub IsFound : List Payment → Payment → Type 0
IsFound ps q = find q.id ps ≡ some q

find_skip :
    (p : Payment) (ps qs : List Payment)
    → find p.id ps ≡ none
    → All (IsFound ps) qs
    → All (IsFound (p ∷ ps)) qs
unfolding find
find_skip p ps [] h a = tt
find_skip p ps (q ∷ qs) h a = (ground arith, find_skip p ps qs h a.1)

pub All-IsFound : (ps : List Payment) → HasUniqueIds ps → All (IsFound ps) ps
unfolding find
All-IsFound [] h = tt
All-IsFound (p ∷ ps) h = (ground arith, find_skip p ps ps h.0 (All-IsFound ps h.1))

-- What a key finds after one row was written.
pub replaced :
    (k : ℕ) (p q r : Payment) (ps : List Payment)
    → find q.id ps ≡ some p
    → find k (replace q ps) ≡ some r
    → ((q.id ≡ k) × (r ≡ q)) ⊎ ((q.id ≢ k) × (find k ps ≡ some r))
replaced k p q r ps found h = elim (Bool-cases (q.id == k)) [
  | inl e ↦ inl (ground arith, ground (arith, find-replace k q ps))
  | inr e ↦ inr (ground arith, ground (arith, find-replace k q ps))
]

pub replaced_none :
    (k : ℕ) (q : Payment) (ps : List Payment) → find k (replace q ps) ≡ none → find k ps ≡ none
replaced_none k q ps h = ground (arith, find-replace k q ps)

-- What a key finds after one row was added.
pub appended :
    (k : ℕ) (q r : Payment) (ps : List Payment)
    → find q.id ps ≡ none
    → find k (ps ++ q ∷ []) ≡ some r
    → ((q.id ≡ k) × (r ≡ q)) ⊎ ((q.id ≢ k) × (find k ps ≡ some r))
appended k q r ps fresh h = elim (Bool-cases (q.id == k)) [
  | inl e ↦ inl (ground arith, ground (arith, find-append_one k ps q))
  | inr e ↦ inr (ground arith, ground (arith, find-append_one k ps q))
]

pub appended_none :
    (k : ℕ) (q : Payment) (ps : List Payment)
    → find k (ps ++ q ∷ []) ≡ none
    → (q.id ≢ k) × (find k ps ≡ none)
appended_none k q ps h = ground (arith, find-append_one k ps q)

pub find-none-map :
    (f : Payment → Payment)
    → ((p : Payment) → (f p).id ≡ p.id)
    → (k : ℕ) (ps : List Payment) → find k (map f ps) ≡ none
    → find k ps ≡ none
unfolding find
find-none-map f same k [] h = refl
find-none-map f same k (p ∷ ps) h = ground (arith, same p, find-none-map f same k ps)

pub find-map-some :
    (f : Payment → Payment)
    → ((p : Payment) → (f p).id ≡ p.id)
    → (k : ℕ) (ps : List Payment) (p : Payment) → find k ps ≡ some p
    → find k (map f ps) ≡ some (f p)
unfolding find
find-map-some f same k [] p h = cc
find-map-some f same k (q ∷ ps) p h = elim (Bool-cases (q.id == k)) [
  | inl e ↦ let eq : q ≡ p = ground arith in ground (arith, same q, eq)
  | inr e ↦ ground (arith, same q, find-map-some f same k ps p)
]
