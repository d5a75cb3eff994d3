-- ===== src/Repositories/Outbox.antt =====
-- app/repositories/outbox.py, class `OutboxRepository`.
pub mod Oldest
pub mod Found
use async_payment_processing.Prelude.{
  ℕ, Bool, false, ◌&&◌, ◌||◌, not, some, List, [], ◌∷◌, ◌++◌, if◌then◌else◌, ◌==◌, ltb, leb,
  is_some, ok, err, take, select, Result, integrity_error, value_error,
}
use async_payment_processing.Prelude.Sort.{sort_by}
use async_payment_processing.Models.{OutboxEvent}

-- The primary key of the table is taken.
unfoldable pub has_event : ℕ → List OutboxEvent → Bool
has_event k [] = false
has_event k (e ∷ es) = (e.id == k) || has_event k es

-- `add`: the flush fails on a key that is taken.
unfoldable pub add_event : OutboxEvent → List OutboxEvent → Result (List OutboxEvent)
unfolding has_event
add_event e es = if has_event e.id es then err integrity_error else ok (es ++ e ∷ [])

-- `order_by(created_at, id)`
abbrev pub event_before : OutboxEvent → OutboxEvent → Bool
event_before a b =
    ltb a.created_at b.created_at || ((a.created_at == b.created_at) && leb a.id b.id)

-- `published_at IS NULL`, of a row that no other transaction has locked (`skip_locked`)
abbrev pub is_waiting : (ℕ → Bool) → OutboxEvent → Bool
is_waiting locked e = not (is_some e.published_at) && not (locked e.id)

-- `get_unpublished_batch`
unfoldable pub get_unpublished_batch : (ℕ → Bool) → ℕ → List OutboxEvent → Result (List OutboxEvent)
get_unpublished_batch locked batch_size es =
    if ltb batch_size 1
    then err value_error
    else ok (take batch_size (sort_by event_before (select (is_waiting locked) es)))

-- `mark_published`, written back to the row
unfoldable pub mark_published : ℕ → ℕ → List OutboxEvent → List OutboxEvent
mark_published now k [] = []
mark_published now k (e ∷ es) =
    (if e.id == k then record e { published_at = some now } else e) ∷ mark_published now k es
