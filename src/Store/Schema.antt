-- ===== src/Store/Schema.antt =====
-- InitSchema of internal/store/store.go: one statement for each table and its indexes.
use otelstore.Base.{String, Outcome, ok, err, or_wrap}
use otelstore.Sql.{Engine}
use otelstore.Sql.Rows.{Table, spans, logs, metrics}

abbrev pub create_failed : Table → String
create_failed spans = "failed to create spans table: "
create_failed logs = "failed to create logs table: "
create_failed metrics = "failed to create metrics table: "

module _ (E : Engine) where
  unfoldable pub create_table : Table → E.Db → Outcome (Unit {0}) × E.Db
  create_table t d = let (r, d') = E.create t d in (or_wrap (create_failed t) r, d')

  -- the first error ends it
  unfoldable pub init_schema : E.Db → Outcome (Unit {0}) × E.Db
  unfolding create_table
  init_schema d =
      let (r, d') = create_table spans d in
      elim r [
        | err e ↦ (err e, d')
        | ok _ ↦
            let (r', d'') = create_table logs d' in
            elim r' [ err e ↦ (err e, d'') | ok _ ↦ create_table metrics d'' ]
      ]
