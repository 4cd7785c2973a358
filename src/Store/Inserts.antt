-- ===== src/Store/Inserts.antt =====
-- InsertSpans, InsertLogs and InsertMetrics of internal/store/store.go: one transaction for a batch.
use otelstore.Base.{Char, String, Option, List, [], ◌∷◌, map, Outcome, ok, err, or_wrap, wrap}
use otelstore.Value.{Resource, Scope}
use otelstore.Redact.{Redactor}
use otelstore.Sql.{Engine}
use otelstore.Sql.Rows.{Table, Row, spans, logs, metrics}
use otelstore.Store.Records.{Span, LogRecord, Metric, span_row, log_row, all_metric_rows}

pub record Store (E : Engine) : Type 0 where
  pub db : E.Db
  pub redactor : Option Redactor

-- the text in front of an error of the table's INSERT, and of COMMIT
abbrev pub insert_failed : Table → String
insert_failed spans = "failed to insert span: "
insert_failed logs = "failed to insert log: "
insert_failed metrics = "failed to insert metric: "

abbrev pub commit_failed : Table → String
commit_failed spans = "failed to commit spans: "
commit_failed logs = "failed to commit logs: "
commit_failed metrics = "failed to commit metrics: "

module _ (E : Engine) where
  -- SetRedactor
  unfoldable pub set_redactor : Option Redactor → Store E → Store E
  set_redactor r s = record s { redactor = r }

  -- The loop over a batch: a row that cannot be made or inserted ends it.
  unfoldable pub insert_rows :
      (t : Table) → List (Outcome (Row t)) → E.Tx → Outcome (Unit {0}) × E.Tx
  insert_rows t [] x = (ok tt, x)
  insert_rows t (err e ∷ rows) x = (err e, x)
  insert_rows t (ok row ∷ rows) x =
      let (r, x') = E.insert t row x in
      let rest = insert_rows t rows x' in
      elim (or_wrap (insert_failed t) r) [ err e ↦ (err e, x') | ok _ ↦ rest ]

  -- COMMIT after the loop, or the deferred ROLLBACK; behind a COMMIT the latter does nothing
  unfoldable pub finish : Table → Outcome (Unit {0}) × E.Tx → Outcome (Unit {0}) × E.Db
  finish t (err e, x) = (err e, E.rollback x)
  finish t (ok _, x) = let (r, d) = E.commit x in (or_wrap (commit_failed t) r, d)

  unfoldable pub in_transaction :
      (t : Table) → List (Outcome (Row t)) → E.Db → Outcome (Unit {0}) × E.Db
  unfolding insert_rows finish
  in_transaction t rows d = elim (E.begin d) [
    | err e ↦ (err (wrap "failed to begin tx: " e), d)
    | ok x ↦ elim (E.prepare t x) [
      | err e ↦ (err (wrap "failed to prepare statement: " e), E.rollback x)
      | ok _ ↦ finish t (insert_rows t rows x)
    ]
  ]

  abbrev pub with_db : Store E → Outcome (Unit {0}) × E.Db → Outcome (Unit {0}) × Store E
  with_db s (r, d) = (r, record s { db = d })

  module _ (lower : Char → Char) (s : Store E) where
    unfoldable pub insert_spans :
        List Span → Option Resource → Option Scope → Outcome (Unit {0}) × Store E
    insert_spans [] resource scope = (ok tt, s)
    insert_spans (span ∷ rest) resource scope =
        with_db s
          (in_transaction spans (map (span_row lower s.redactor resource scope) (span ∷ rest)) s.db)

    unfoldable pub insert_logs :
        List LogRecord → Option Resource → Option Scope → Outcome (Unit {0}) × Store E
    insert_logs [] resource scope = (ok tt, s)
    insert_logs (log ∷ rest) resource scope =
        with_db s
          (in_transaction logs (map (log_row lower s.redactor resource scope) (log ∷ rest)) s.db)

    unfoldable pub insert_metrics :
        List Metric → Option Resource → Option Scope → Outcome (Unit {0}) × Store E
    insert_metrics [] resource scope = (ok tt, s)
    insert_metrics (metric ∷ rest) resource scope = with_db s (
        in_transaction metrics (all_metric_rows lower s.redactor resource scope (metric ∷ rest))
          s.db)
