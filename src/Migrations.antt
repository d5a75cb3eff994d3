-- ===== src/Migrations.antt =====
-- alembic/versions/0d87ab9ee1b8_create_payments_and_outbox_events.py
pub mod RoundTrip
use async_payment_processing.Prelude.{
  ℕ, String, Bool, true, false, ◌||◌, not, Option, none, some, List, [], ◌∷◌, ◌++◌, if◌then◌else◌,
  ok, err, Result, ◌>>=◌, database_error,
}
use text.Mathlib.Text.{◌==◌ as text_eq}
use async_payment_processing.Models.Schema.{
  ColumnType, uuid, jsonb, boolean, integer, timestamp, varchar, numeric, Column, Constraint,
  primary_key, check, Table, Index,
}

-- What the catalogue of the database holds.
pub record Catalogue : Type 0 where
  pub tables : List Table
  pub indexes : List Index

abbrev pub has_table : String → List Table → Bool
has_table name [] = false
has_table name (t ∷ ts) = text_eq t.name name || has_table name ts

abbrev pub has_index : String → List Index → Bool
has_index name [] = false
has_index name (x ∷ xs) = text_eq x.name name || has_index name xs

abbrev pub drop_named : String → List Table → List Table
drop_named name [] = []
drop_named name (t ∷ ts) =
    if text_eq t.name name then drop_named name ts else t ∷ drop_named name ts

abbrev pub drop_index_named : String → List Index → List Index
drop_index_named name [] = []
drop_index_named name (x ∷ xs) =
    if text_eq x.name name then drop_index_named name xs else x ∷ drop_index_named name xs

-- The indexes of a table go with it.
abbrev pub drop_indexes_of : String → List Index → List Index
drop_indexes_of table [] = []
drop_indexes_of table (x ∷ xs) =
    if text_eq x.table table then drop_indexes_of table xs else x ∷ drop_indexes_of table xs

-- `op.create_table`, `op.create_index`, `op.drop_table` and `op.drop_index`, on PostgreSQL
unfoldable pub create_table : Table → Catalogue → Result Catalogue
create_table t s =
    if has_table t.name s.tables
    then err database_error
    else ok (record s { tables = t ∷ s.tables })

unfoldable pub create_index : Index → Catalogue → Result Catalogue
create_index x s =
    if has_index x.name s.indexes || not (has_table x.table s.tables)
    then err database_error
    else ok (record s { indexes = x ∷ s.indexes })

unfoldable pub drop_table : String → Catalogue → Result Catalogue
drop_table name s =
    if has_table name s.tables
    then ok (record { tables = drop_named name s.tables; indexes = drop_indexes_of name s.indexes })
    else err database_error

unfoldable pub drop_index : String → Catalogue → Result Catalogue
drop_index name s =
    if has_index name s.indexes
    then ok (record s { indexes = drop_index_named name s.indexes })
    else err database_error

-- `sa.Column(...)`
abbrev column : String → ColumnType → Bool → Option String → Column
column name t nullable server_default = record {
  name = name;
  column_type = t;
  nullable = nullable;
  server_default = server_default;
}

abbrev pub created_outbox_events : Table
created_outbox_events = record {
  name = "outbox_events";
  columns =
      column "id" uuid false none
      ∷ column "event_type" (varchar 100) false none
      ∷ column "payment_id" uuid false none
      ∷ column "payload" jsonb false none
      ∷ column "created_at" timestamp false (some "now()")
      ∷ column "published_at" timestamp true none
      ∷ [];
  constraints = primary_key "pk_outbox_events" "id" ∷ [];
}

abbrev pub created_index : Index
created_index = record {
  name = "ix_outbox_events_unpublished_created_at_id";
  table = "outbox_events";
  columns = "created_at" ∷ "id" ∷ [];
  test = "published_at IS NULL";
}

abbrev pub created_payments : Table
created_payments = record {
  name = "payments";
  columns =
      column "id" uuid false none
      ∷ column "amount" (numeric 18 2) false none
      ∷ column "currency" (varchar 3) false none
      ∷ column "description" ColumnType.text true none
      ∷ column "metadata" jsonb false (some "'{}'::jsonb")
      ∷ column "status" (varchar 20) false (some "pending")
      ∷ column "idempotency_key" (varchar 255) false none
      ∷ column "request_fingerprint" (varchar 64) false none
      ∷ column "webhook_url" ColumnType.text false none
      ∷ column "webhook_event_id" uuid true none
      ∷ column "webhook_sent_at" timestamp true none
      ∷ column "provider_payment_id" uuid true none
      ∷ column "created_at" timestamp false (some "now()")
      ∷ column "updated_at" timestamp false (some "now()")
      ∷ column "processed_at" timestamp true none
      ∷ column "reconciliation_attempts" integer false (some "0")
      ∷ column "requires_manual_review" boolean false (some "false")
      ∷ column "reconciliation_lease_token" uuid true none
      ∷ column "reconciliation_lease_until" timestamp true none
      ∷ [];
  constraints =
      check "ck_payments_currency_supported" "currency IN ('RUB', 'USD', 'EUR')"
      ∷ check "ck_payments_status_supported"
          "status IN ('pending', 'succeeded', 'failed', 'unknown')"
      ∷ primary_key "pk_payments" "id"
      ∷ Constraint.unique "uq_payments_idempotency_key" "idempotency_key"
      ∷ Constraint.unique "uq_payments_provider_payment_id" "provider_payment_id"
      ∷ Constraint.unique "uq_payments_webhook_event_id" "webhook_event_id"
      ∷ [];
}

unfoldable pub upgrade : Catalogue → Result Catalogue
upgrade s =
    create_table created_outbox_events s
    >>= create_index created_index
    >>= create_table created_payments

unfoldable pub downgrade : Catalogue → Result Catalogue
downgrade s =
    drop_table "payments" s
    >>= drop_index "ix_outbox_events_unpublished_created_at_id"
    >>= drop_table "outbox_events"
