-- ===== src/Tests/Migrations.antt =====
-- The migration of a database that holds only the table of Alembic.
use async_payment_processing.Prelude.{◌≡◌, refl, false, none, [], ◌∷◌, ok}
use async_payment_processing.Models.Schema
use async_payment_processing.Models.Schema.{Table, varchar, primary_key}
use async_payment_processing.Migrations.{
  Catalogue, upgrade, downgrade, create_table, create_index, created_payments, created_index,
  created_outbox_events,
}
use async_payment_processing.Migrations.RoundTrip.{IsDeclared, upgrade-downgrade}

abbrev version_table : Table
version_table = record {
  name = "alembic_version";
  columns =
      record {
        name = "version_num";
        column_type = varchar 32;
        nullable = false;
        server_default = none;
      }
      ∷ [];
  constraints = primary_key "alembic_version_pkc" "version_num" ∷ [];
}

abbrev before : Catalogue
before = record { tables = version_table ∷ []; indexes = [] }

abbrev after : Catalogue
after = record {
  tables = created_payments ∷ created_outbox_events ∷ version_table ∷ [];
  indexes = created_index ∷ [];
}

before_upgrade : upgrade before ≡ ok after
unfolding upgrade create_table create_index
before_upgrade = refl

upgrade-downgrade_example :
    (a b : Table) × (after.tables ≡ a ∷ b ∷ before.tables)
    × IsDeclared a Schema.payments
    × IsDeclared b Schema.outbox_events
    × (after.indexes ≡ Schema.unpublished_index ∷ before.indexes)
    × (downgrade after ≡ ok before)
upgrade-downgrade_example = upgrade-downgrade before after tt before_upgrade
