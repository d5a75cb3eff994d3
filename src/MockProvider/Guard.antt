-- ===== src/MockProvider/Guard.antt =====
-- The lock entries of the mock provider: mock-provider/app/main.py, `_idempotency_locks`.
pub mod Runs
use async_payment_processing.Prelude.{
  ℕ, ◌+◌, ◌<◌, ◌≡◌, refl, Bool, true, false, ◌&&◌, Option, some, List, [], ◌∷◌, ◌++◌, arith,
  if◌then◌else◌, ◌==◌, tally, All, ◌-◌,
}
use async_payment_processing.MockProvider.Locks.{
  Locks, enter, leave, IsCounted, enter-IsCounted, enter-stands, enter-keeps, leave-IsCounted,
  leave-keeps, IsCounted-ext,
}
use async_payment_processing.MockProvider.Payments.{
  Scenario, ProcessPaymentRequest, Phase, failing, sleeping, waiting, delayed,
}
use async_payment_processing.MockProvider.Step.{Provider, Task}

abbrev pub is_waiting : Phase → Bool
is_waiting (waiting entry) = true
is_waiting _ = false

-- The handler waits for the lock of this key.
abbrev pub waits_at : ℕ → Task → Bool
waits_at k t = is_waiting t.phase && (t.payment.payment_id == k)

-- The entry at which a handler waits is the one of the table.
abbrev pub Stands : Locks → ℕ → Phase → Type 0
Stands l k (waiting entry) = l.table k ≡ some entry
Stands l k _ = Unit

abbrev pub IsPlaced : Locks → Task → Type 0
IsPlaced l t = Stands l t.payment.payment_id t.phase

pub record IsGuarded (l : Locks) (tasks : List Task) : Type 0 where
  pub counted : IsCounted l (λ k. tally (waits_at k) tasks)
  pub placed : All (IsPlaced l) tasks

-- A change of the table that leaves the entries of these handlers alone.
IsPlaced-kept :
    (l l' : Locks) (ts : List Task)
    → ((k e : ℕ) → 0 < tally (waits_at k) ts → l.table k ≡ some e → l'.table k ≡ some e)
    → All (IsPlaced l) ts
    → All (IsPlaced l') ts
IsPlaced-kept l l' [] keep h = tt
IsPlaced-kept l l' (t ∷ ts) keep h =
    (one t.phase refl h.0, IsPlaced-kept l l' ts (λ k e some_left q. keep k e (omega arith) q) h.1)
  where
    one :
        (f : Phase)
        → t.phase ≡ f
        → Stands l t.payment.payment_id f
        → Stands l' t.payment.payment_id f
    one (waiting e) same q = keep t.payment.payment_id e (ground arith) q
    one failing same q = tt
    one sleeping same q = tt
    one (delayed r) same q = tt

pub All-without {ℓ} :
    {A : Type ℓ} (P : A → Type 0) (before : List A) (t : A) (after : List A)
    → All P (before ++ t ∷ after)
    → P t × All P (before ++ after)
All-without P [] t after h = h
All-without P (x ∷ before) t after h =
    let (p, rest) = All-without P before t after h.1 in (p, (h.0, rest))

tally-without {ℓ} :
    {A : Type ℓ} (test : A → Bool) (before : List A) (t : A) (after : List A)
    → tally test (before ++ t ∷ after) ≡ (if test t then 1 else 0) + tally test (before ++ after)
tally-without test [] t after = refl
tally-without test (x ∷ before) t after = omega (arith, tally-without test before t after)

idle-Stands : (l : Locks) (k : ℕ) (f : Phase) → is_waiting f ≡ false → Stands l k f
idle-Stands l k (waiting e) idle = cc
idle-Stands l k failing idle = tt
idle-Stands l k sleeping idle = tt
idle-Stands l k (delayed r) idle = tt

module _ (l : Locks) (ts : List Task) (h : IsGuarded l ts) where
  pub queued-IsGuarded :
      (payment : ProcessPaymentRequest) (scenario : Option Scenario)
      → let (entry, l') = enter payment.payment_id l in
        IsGuarded l' (record { payment = payment; scenario = scenario; phase = waiting entry } ∷ ts)
  queued-IsGuarded payment scenario = record {
    counted = enter-IsCounted l _ _ payment.payment_id h.counted (λ k. ground arith);
    placed = (
      enter-stands l payment.payment_id,
      IsPlaced-kept l (enter payment.payment_id l).1 ts
          (λ k e s q. enter-keeps l payment.payment_id k e q) h.placed,
    );
  }

  pub added-IsGuarded : (t : Task) → is_waiting t.phase ≡ false → IsGuarded l (t ∷ ts)
  added-IsGuarded t idle = record {
    counted = IsCounted-ext l _ _ (λ k. rw (idle, ◌&&◌) (omega arith)) h.counted;
    placed = (idle-Stands l t.payment.payment_id t.phase idle, h.placed);
  }

module _ (l : Locks) (before : List Task) (t : Task) (after : List Task)
    (h : IsGuarded l (before ++ t ∷ after)) where
  pub dropped-IsGuarded : is_waiting t.phase ≡ false → IsGuarded l (before ++ after)
  dropped-IsGuarded idle = record {
    counted =
        IsCounted-ext l _ _ (λ k. ground (arith, tally-without {0} (waits_at k) before t after))
          h.counted;
    placed = (All-without (IsPlaced l) before t after h.placed).1;
  }

  pub left-IsGuarded :
      (e : ℕ) → t.phase ≡ waiting e → IsGuarded (leave t.payment.payment_id e l) (before ++ after)
  left-IsGuarded e at =
      let key = t.payment.payment_id in
      let (own, others) = All-without (IsPlaced l) before t after h.placed in
      let stands : l.table key ≡ some e = rw at at own in
      let less : (k : ℕ)
          → tally (waits_at k) (before ++ after) ≡ (
              if k == key
              then tally (waits_at k) (before ++ t ∷ after) - 1
              else tally (waits_at k) (before ++ t ∷ after)) =
        λ k. ground (arith, tally-without {0} (waits_at k) before t after) in
      record {
        counted = leave-IsCounted l _ _ key h.counted e stands less;
        placed =
            IsPlaced-kept l (leave key e l) (before ++ after)
              (λ k x some_left q. leave-keeps l _ _ key h.counted e stands less k x some_left q)
              others;
      }
