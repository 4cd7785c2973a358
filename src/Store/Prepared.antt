-- ===== src/Store/Prepared.antt =====
-- InitSchema of internal/store/store.go on a database that has rows.
use otelstore.Base.{◌≡◌, ◌∙◌, Outcome-cases, inl, inr}
use otelstore.Sql.{Engine, IsLawful}
use otelstore.Sql.Rows.{Table, spans, logs, metrics}
use otelstore.Store.Schema.{create_table, init_schema}

module _ (E : Engine) (law : IsLawful E) where
  create_table_keeps : (t : Table) (d : E.Db) → E.tables (create_table E t d).1 ≡ E.tables d
  unfolding create_table
  create_table_keeps t d = law.create_keeps t d

  pub init_schema_keeps : (d : E.Db) → E.tables (init_schema E d).1 ≡ E.tables d
  unfolding init_schema
  init_schema_keeps d =
      let first = create_table_keeps spans d in
      let second = create_table_keeps logs _ ∙ first in
      let third = create_table_keeps metrics _ ∙ second in
      elim (Outcome-cases (create_table E spans d).0) [
        | inr (e, h) ↦ rw (h, init_schema) first
        | inl (_, h) ↦ elim (Outcome-cases (create_table E logs (create_table E spans d).1).0) [
          | inr (e, k) ↦ rw (h, k, init_schema) second
          | inl (_, k) ↦ rw (h, k, init_schema) third
        ]
      ]
