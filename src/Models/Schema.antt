-- ===== src/Models/Schema.antt =====
-- The tables that app/models/payment.py and app/models/outbox_event.py declare, and the names that
-- app/models/base.py gives to their constraints.
use async_payment_processing.Prelude.{
  ℕ, String, Bool, true, false, Option, none, some, List, [], ◌∷◌, ◌++◌, map,
}
use Prim.Native.String.{◌++◌ as text_append}

pub data ColumnType : Type 0 where
  uuid jsonb text boolean integer timestamp : ColumnType
  varchar : (length : ℕ) → ColumnType
  numeric : (precision scale : ℕ) → ColumnType

pub record Column : Type 0 where
  pub name : String
  pub column_type : ColumnType
  pub nullable : Bool
  pub server_default : Option String

pub data Constraint : Type 0 where
  primary_key unique : (name column : String) → Constraint
  check : (name test : String) → Constraint

pub record Table : Type 0 where
  pub name : String
  pub columns : List Column
  pub constraints : List Constraint

pub record Index : Type 0 where
  pub name : String
  pub table : String
  pub columns : List String
  pub test : String

-- `mapped_column(...)`
pub data Mapped : Type 0 where
  plain key unique : Column → Mapped

abbrev column_of : Mapped → Column
column_of (plain c) = c
column_of (key c) = c
column_of (Mapped.unique c) = c

-- `NAMING_CONVENTION`
abbrev pub pk_name : String → String
pk_name table = text_append "pk_" table

abbrev pub uq_name : String → String → String
uq_name table column = text_append "uq_" (text_append table (text_append "_" column))

abbrev pub ck_name : String → String → String
ck_name table name = text_append "ck_" (text_append table (text_append "_" name))

abbrev keys : String → List Mapped → List Constraint
keys table [] = []
keys table (key c ∷ ms) = Constraint.primary_key (pk_name table) c.name ∷ keys table ms
keys table (m ∷ ms) = keys table ms

abbrev uniques : String → List Mapped → List Constraint
uniques table [] = []
uniques table (Mapped.unique c ∷ ms) =
    Constraint.unique (uq_name table c.name) c.name ∷ uniques table ms
uniques table (m ∷ ms) = uniques table ms

abbrev checks : String → List (String × String) → List Constraint
checks table [] = []
checks table ((name, test) ∷ cs) = Constraint.check (ck_name table name) test ∷ checks table cs

-- The Table of a class.
abbrev table_of : String → List (String × String) → List Mapped → Table
table_of name cs ms = record {
  name = name;
  columns = map column_of ms;
  constraints = checks name cs ++ keys name ms ++ uniques name ms;
}

abbrev required : String → ColumnType → Column
required name t = record { name = name; column_type = t; nullable = false; server_default = none }

abbrev optional : String → ColumnType → Column
optional name t = record { name = name; column_type = t; nullable = true; server_default = none }

abbrev default : String → ColumnType → String → Column
default name t value = record {
  name = name;
  column_type = t;
  nullable = false;
  server_default = some value;
}

-- `Payment`
abbrev pub payments : Table
payments =
    table_of "payments"
      (("currency_supported", "currency IN ('RUB', 'USD', 'EUR')")
        ∷ ("status_supported", "status IN ('pending', 'succeeded', 'failed', 'unknown')")
        ∷ [])
      (key (required "id" uuid)
        ∷ plain (required "amount" (numeric 18 2))
        ∷ plain (required "currency" (varchar 3))
        ∷ plain (optional "description" text)
        ∷ plain (default "metadata" jsonb "'{}'::jsonb")
        ∷ plain (default "status" (varchar 20) "pending")
        ∷ Mapped.unique (required "idempotency_key" (varchar 255))
        ∷ plain (required "request_fingerprint" (varchar 64))
        ∷ plain (required "webhook_url" text)
        ∷ Mapped.unique (optional "webhook_event_id" uuid)
        ∷ plain (optional "webhook_sent_at" timestamp)
        ∷ Mapped.unique (optional "provider_payment_id" uuid)
        ∷ plain (default "created_at" timestamp "now()")
        ∷ plain (default "updated_at" timestamp "now()")
        ∷ plain (optional "processed_at" timestamp)
        ∷ plain (default "reconciliation_attempts" integer "0")
        ∷ plain (default "requires_manual_review" boolean "false")
        ∷ plain (optional "reconciliation_lease_token" uuid)
        ∷ plain (optional "reconciliation_lease_until" timestamp)
        ∷ [])

-- `OutboxEvent`
abbrev pub outbox_events : Table
outbox_events = table_of "outbox_events" [] (
    key (required "id" uuid)
    ∷ plain (required "event_type" (varchar 100))
    ∷ plain (required "payment_id" uuid)
    ∷ plain (required "payload" jsonb)
    ∷ plain (default "created_at" timestamp "now()")
    ∷ plain (optional "published_at" timestamp)
    ∷ [])

abbrev pub unpublished_index : Index
unpublished_index = record {
  name = "ix_outbox_events_unpublished_created_at_id";
  table = "outbox_events";
  columns = "created_at" ∷ "id" ∷ [];
  test = "published_at IS NULL";
}
