-- ===== src/Repositories/Payments.antt =====
-- app/repositories/payment.py, class `PaymentRepository`, over the rows of the table. An UPDATE sets
-- `updated_at` to the database's time (`onupdate=func.now()`), which is `db_now`.
use async_payment_processing.Prelude.{
  ℕ, String, Bool, true, false, ◌&&◌, ◌||◌, not, Option, none, some, List, [], ◌∷◌, ◌++◌, map,
  if◌then◌else◌, ◌==◌, ltb, leb, is_some, equals_some, ok, err, take, select, Result,
  integrity_error,
}
use async_payment_processing.Prelude.Sort.{sort_by}
use async_payment_processing.Schemas.{is_unknown}
use async_payment_processing.Models.{Payment}
use async_payment_processing.Models.Rows.{find, replace}
use text.Mathlib.Text.{◌==◌ as text_eq}

-- `get_by_idempotency_key`: the column is unique, so the first row is the only one.
unfoldable pub get_by_idempotency_key : String → List Payment → Option Payment
get_by_idempotency_key key [] = none
get_by_idempotency_key key (p ∷ ps) =
    if text_eq p.idempotency_key key then some p else get_by_idempotency_key key ps

-- `get_by_id` and `get_by_id_for_update`; the lock makes the transaction one step of the database.
unfoldable pub get_by_id : ℕ → List Payment → Option Payment
get_by_id k ps = find k ps

-- Two nullable unique columns hold the same value.
abbrev pub same_value : Option ℕ → Option ℕ → Bool
same_value none b = false
same_value (some a) b = equals_some b a

-- A row stands in the way of `p` by one of the UNIQUE constraints of the table.
abbrev pub clashes : Payment → Payment → Bool
clashes p q =
    text_eq q.idempotency_key p.idempotency_key
    || (same_value q.webhook_event_id p.webhook_event_id
        || same_value q.provider_payment_id p.provider_payment_id)

-- Another row than that of `p` does.
unfoldable pub clashes_other : Payment → List Payment → Bool
clashes_other p [] = false
clashes_other p (q ∷ qs) = (not (q.id == p.id) && clashes p q) || clashes_other p qs

-- `add`: the flush inserts the row, or fails on the primary key or a UNIQUE constraint.
unfoldable pub add : Payment → List Payment → Result (List Payment)
unfolding clashes_other
add p ps =
    if is_some (find p.id ps) || clashes_other p ps then err integrity_error else ok (ps ++ p ∷ [])

-- The UPDATE of a row that a session has changed.
unfoldable pub update : ℕ → Payment → List Payment → Result (List Payment)
unfolding clashes_other
update db_now p ps =
    if clashes_other p ps
    then err integrity_error
    else ok (replace (record p { updated_at = db_now }) ps)

-- `lease_until IS NULL OR lease_until <= t`
abbrev pub is_lease_over : ℕ → Option ℕ → Bool
is_lease_over t none = true
is_lease_over t (some until) = leb until t

-- The WHERE clause of `claim_reconciliation_batch`.
abbrev pub is_claimable : ℕ → ℕ → Payment → Bool
is_claimable stale_before lease_expired_before p =
    is_unknown p.status
    && (not p.requires_manual_review
        && (leb p.updated_at stale_before
            && is_lease_over lease_expired_before p.reconciliation_lease_until))

-- `order_by(updated_at, id)`
abbrev pub payment_before : Payment → Payment → Bool
payment_before a b =
    ltb a.updated_at b.updated_at || ((a.updated_at == b.updated_at) && leb a.id b.id)

-- The rows that the SELECT of the claim locks; those that others have locked are skipped.
unfoldable pub claimed_rows : (ℕ → Bool) → ℕ → ℕ → ℕ → List Payment → List Payment
claimed_rows locked stale_before lease_expired_before batch_size ps = take batch_size (
    sort_by payment_before
      (select (λ p. is_claimable stale_before lease_expired_before p && not (locked p.id)) ps))

abbrev pub ids : List Payment → List ℕ
ids [] = []
ids (p ∷ ps) = p.id ∷ ids ps

unfoldable pub contains : ℕ → List ℕ → Bool
contains k [] = false
contains k (j ∷ js) = (j == k) || contains k js

-- The row with the lease written into it, if it is one of those.
abbrev pub lease_row : List ℕ → ℕ → ℕ → ℕ → Payment → Payment
lease_row claimed db_now lease_token lease_until p =
    if contains p.id claimed
    then record p {
      reconciliation_lease_token = some lease_token;
      reconciliation_lease_until = some lease_until;
      updated_at = db_now;
    }
    else p

-- `claim_reconciliation_batch`: the ids that were claimed, and the table.
unfoldable pub claim_reconciliation_batch :
    (ℕ → Bool) → ℕ → ℕ → ℕ → ℕ → ℕ → ℕ → List Payment → List ℕ × List Payment
unfolding contains
claim_reconciliation_batch locked stale_before lease_expired_before lease_token lease_until
      batch_size db_now ps =
    let claimed = ids (claimed_rows locked stale_before lease_expired_before batch_size ps) in
    (claimed, map (lease_row claimed db_now lease_token lease_until) ps)

-- `lease_until IS NOT NULL AND lease_until > now`
abbrev pub is_lease_running : ℕ → Option ℕ → Bool
is_lease_running now none = false
is_lease_running now (some until) = ltb now until

-- The WHERE clause of `renew_reconciliation_lease` and `get_claimed_payment_for_update`, behind the id.
abbrev pub is_claimed_by : ℕ → ℕ → Payment → Bool
is_claimed_by lease_token now p =
    is_unknown p.status
    && (not p.requires_manual_review
        && (equals_some p.reconciliation_lease_token lease_token
            && is_lease_running now p.reconciliation_lease_until))

claimed_row : ℕ → ℕ → Option Payment → Option Payment
claimed_row lease_token now none = none
claimed_row lease_token now (some p) = if is_claimed_by lease_token now p then some p else none

-- `get_claimed_payment_for_update`
unfoldable pub get_claimed_payment_for_update : ℕ → ℕ → ℕ → List Payment → Option Payment
unfolding claimed_row
get_claimed_payment_for_update payment_id lease_token now ps =
    claimed_row lease_token now (find payment_id ps)

renew_row : ℕ → ℕ → Option Payment → List Payment → Bool × List Payment
renew_row lease_until db_now none ps = (false, ps)
renew_row lease_until db_now (some p) ps = (
  true,
  replace (record p { reconciliation_lease_until = some lease_until; updated_at = db_now }) ps,
)

-- `renew_reconciliation_lease`: one UPDATE; whether it returned a row, and the table.
unfoldable pub renew_reconciliation_lease : ℕ → ℕ → ℕ → ℕ → ℕ → List Payment → Bool × List Payment
unfolding renew_row get_claimed_payment_for_update
renew_reconciliation_lease payment_id lease_token now lease_until db_now ps =
    renew_row lease_until db_now (get_claimed_payment_for_update payment_id lease_token now ps) ps
