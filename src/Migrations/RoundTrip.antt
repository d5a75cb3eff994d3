-- ===== src/Migrations/RoundTrip.antt =====
-- `upgrade` and `downgrade` of alembic/versions/0d87ab9ee1b8_create_payments_and_outbox_events.py.
use async_payment_processing.Prelude.{
  ◌≡◌, refl, String, true, false, List, [], ◌∷◌, ok, arith, All, eq_iff, inl, inr, Bool-cases, sym,
  err, Error,
}
use mathlib.Core.List.{Perm}
use mathlib.Core.List.Perm.{refl as perm_refl, cons as perm_cons, swap as perm_swap}
use text.Mathlib.Text.{◌==◌ as text_eq}
use async_payment_processing.Models.Schema
use async_payment_processing.Models.Schema.{Table, Index, Constraint}
use async_payment_processing.Migrations.{
  Catalogue, has_table, has_index, drop_named, drop_index_named, drop_indexes_of, create_table,
  create_index, drop_table, drop_index, created_outbox_events, created_index, created_payments,
  upgrade, downgrade,
}

-- Every index is on a table that is there.
abbrev pub HasTables : Catalogue → Type 0
HasTables s = All (λ (x : Index). has_table x.table s.tables ≡ true) s.indexes

drop_named-absent :
    (name : String) (ts : List Table) → has_table name ts ≡ false → drop_named name ts ≡ ts
drop_named-absent name [] h = refl
drop_named-absent name (t ∷ ts) h = ground (arith, drop_named-absent name ts)

drop_index_named-absent :
    (name : String) (xs : List Index) → has_index name xs ≡ false → drop_index_named name xs ≡ xs
drop_index_named-absent name [] h = refl
drop_index_named-absent name (x ∷ xs) h = ground (arith, drop_index_named-absent name xs)

drop_indexes_of-absent :
    (name : String) (ts : List Table) (xs : List Index)
    → has_table name ts ≡ false
    → All (λ (x : Index). has_table x.table ts ≡ true) xs
    → drop_indexes_of name xs ≡ xs
drop_indexes_of-absent name ts [] free h = refl
drop_indexes_of-absent name ts (x ∷ xs) free (h, hs) = elim (Bool-cases (text_eq x.table name)) [
  | inl e ↦
      let same : x.table ≡ name = (eq_iff x.table name).0 e in absurd (ground (arith, h, same))
  | inr e ↦ rw (e, drop_indexes_of-absent name ts xs free hs)
]

-- What the migration finds where it works.
record IsFree (s : Catalogue) : Type 0 where
  pub no_outbox : has_table "outbox_events" s.tables ≡ false
  pub no_payments : has_table "payments" s.tables ≡ false
  pub no_index : has_index "ix_outbox_events_unpublished_created_at_id" s.indexes ≡ false

abbrev upgraded : Catalogue → Catalogue
upgraded s = record {
  tables = created_payments ∷ created_outbox_events ∷ s.tables;
  indexes = created_index ∷ s.indexes;
}

upgrade-IsFree : (s t : Catalogue) → upgrade s ≡ ok t → IsFree s × (t ≡ upgraded s)
unfolding upgrade create_table create_index
upgrade-IsFree s t h = elim (Bool-cases (has_table "outbox_events" s.tables)) [
  | inl a ↦ absurd (refused (rw (a, upgrade) at h))
  | inr a ↦ elim (Bool-cases (has_index "ix_outbox_events_unpublished_created_at_id" s.indexes)) [
    | inl b ↦ absurd (refused (rw (a, b, upgrade) at h))
    | inr b ↦ elim (Bool-cases (has_table "payments" s.tables)) [
      | inl d ↦ absurd (refused (rw (a, b, d, upgrade) at h))
      | inr d ↦ (
        record { no_outbox = a; no_payments = d; no_index = b },
        sym (made (rw (a, b, d, upgrade) at h)),
      )
    ]
  ]
]
  where
    refused : {x : Error} → err x ≡ ok t → ⊥
    refused e = cc

    made : {u : Catalogue} → ok u ≡ ok t → u ≡ t
    made e = cc

downgrade-upgraded : (s : Catalogue) → HasTables s → IsFree s → downgrade (upgraded s) ≡ ok s
unfolding downgrade drop_table drop_index
downgrade-upgraded s tables free =
    rw
      (
        drop_named-absent "payments" s.tables free.no_payments,
        drop_named-absent "outbox_events" s.tables free.no_outbox,
        drop_indexes_of-absent "payments" s.tables s.indexes free.no_payments tables,
        drop_index_named-absent "ix_outbox_events_unpublished_created_at_id" s.indexes
            free.no_index,
        drop_indexes_of-absent "outbox_events" s.tables s.indexes free.no_outbox tables,
      )
      refl

-- The tables of the migration are those of the models, with the same columns in the same order, and the
-- same constraints in some order.
abbrev pub IsDeclared : Table → Table → Type 0
IsDeclared t m = (t.name ≡ m.name) × (t.columns ≡ m.columns) × Perm t.constraints m.constraints

payments-IsDeclared : IsDeclared created_payments Schema.payments
payments-IsDeclared =
    (refl, refl, perm_cons _ (perm_cons _ (perm_cons _ (perm_cons _ (perm_swap _ _ [])))))

-- The migration, where it works, adds the two tables and the index that the models declare, the tables
-- with their columns in the same order and their constraints, under the same names, in some order; and
-- the downgrade then gives back the catalogue as it was. Before, each index was on a table that was
-- there.
pub upgrade-downgrade :
    (s t : Catalogue)
    → HasTables s
    → upgrade s ≡ ok t
    → (a b : Table) × (t.tables ≡ a ∷ b ∷ s.tables)
      × IsDeclared a Schema.payments
      × IsDeclared b Schema.outbox_events
      × (t.indexes ≡ Schema.unpublished_index ∷ s.indexes)
      × (downgrade t ≡ ok s)
upgrade-downgrade s t tables h =
    let (free, same) = upgrade-IsFree s t h in
    rw same (
      created_payments,
      created_outbox_events,
      refl,
      payments-IsDeclared,
      (refl, refl, perm_refl _),
      refl,
      downgrade-upgraded s tables free,
    )
