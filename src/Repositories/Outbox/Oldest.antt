-- ===== src/Repositories/Outbox/Oldest.antt =====
-- The order of a batch: app/repositories/outbox.py, `get_unpublished_batch`.
use async_payment_processing.Prelude.{
  ℕ, zero, suc, min, ◌≡◌, ap, ◌∙◌, ◌⊎◌, inl, inr, Bool, true, false, List, [], ◌∷◌, arith, ok,
  length, take, select, tally, All, All-take, All-imp, All-select-back, tally-select,
  length-take-tally,
}
use async_payment_processing.Prelude.Sort.{
  sort_by, IsSorted, sort_by-IsSorted, tally-sort_by, All-sort_by-back,
}
use async_payment_processing.Models.{OutboxEvent}
use async_payment_processing.Repositories.Outbox.{
  has_event, event_before, is_waiting, get_unpublished_batch,
}

event_before-total : (a b : OutboxEvent) → event_before a b ≡ false → event_before b a ≡ true
event_before-total a b h = ground arith

event_before_trans :
    (a b c : OutboxEvent)
    → event_before a b ≡ true
    → event_before b c ≡ true
    → event_before a c ≡ true
event_before_trans a b c h k = ground arith

-- The event is in the batch, or it comes after each event of the batch.
abbrev pub IsServed : List OutboxEvent → OutboxEvent → Type 0
IsServed batch e = (has_event e.id batch ≡ true) ⊎ All (λ b. event_before b e ≡ true) batch

IsServed-later :
    (x : OutboxEvent) (batch : List OutboxEvent) (e : OutboxEvent)
    → event_before x e ≡ true
    → IsServed batch e
    → IsServed (x ∷ batch) e
unfolding has_event
IsServed-later x batch e h (inl m) = inl (ground arith)
IsServed-later x batch e h (inr m) = inr (h, m)

take-IsServed :
    (n : ℕ) (es : List OutboxEvent) → IsSorted event_before es → All (IsServed (take n es)) es
unfolding has_event
take-IsServed zero es h = All-imp (λ e t. inr tt) es (All-true es)
  where
    All-true : (xs : List OutboxEvent) → All (λ x. Unit {0}) xs
    All-true [] = tt
    All-true (x ∷ xs) = (tt, All-true xs)
take-IsServed (suc n) [] h = tt
take-IsServed (suc n) (x ∷ es) h = (inl (ground arith), go es h.0 (take-IsServed n es h.1))
  where
    go :
        (xs : List OutboxEvent)
        → All (λ y. event_before x y ≡ true) xs
        → All (IsServed (take n es)) xs
        → All (IsServed (x ∷ take n es)) xs
    go [] a b = tt
    go (y ∷ ys) a b = (IsServed-later x (take n es) y a.0 b.0, go ys a.1 b.1)

take-IsSorted :
    (n : ℕ) (es : List OutboxEvent) → IsSorted event_before es → IsSorted event_before (take n es)
take-IsSorted zero es h = tt
take-IsSorted (suc n) [] h = tt
take-IsSorted (suc n) (x ∷ es) h =
    (All-take (λ y. event_before x y ≡ true) n es h.0, take-IsSorted n es h.1)

pub get_unpublished_batch-oldest :
    (locked : ℕ → Bool) (batch_size : ℕ) (es batch : List OutboxEvent)
    → get_unpublished_batch locked batch_size es ≡ ok batch
    → IsSorted event_before batch
      × (length batch ≡ min batch_size (tally (is_waiting locked) es))
      × All (λ e. is_waiting locked e ≡ true → IsServed batch e) es
unfolding get_unpublished_batch
get_unpublished_batch-oldest locked batch_size es batch h = rw (← same) (
  take-IsSorted batch_size sorted in_order,
  length-take-tally batch_size sorted
      ∙ ap (min batch_size)
          (tally-sort_by event_before (λ x. true) waiting ∙ tally-select (is_waiting locked) es),
  All-select-back (IsServed (take batch_size sorted)) (is_waiting locked) es (
      All-sort_by-back event_before (IsServed (take batch_size sorted)) waiting
        (take-IsServed batch_size sorted in_order)),
)
  where
    waiting : List OutboxEvent
    waiting = select (is_waiting locked) es

    sorted : List OutboxEvent
    sorted = sort_by event_before waiting

    in_order : IsSorted event_before sorted
    in_order = sort_by-IsSorted event_before event_before-total event_before_trans waiting

    same : take batch_size sorted ≡ batch
    same = ground arith
