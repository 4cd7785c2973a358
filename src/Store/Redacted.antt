-- ===== src/Store/Redacted.antt =====
-- The inserts of internal/store/store.go under redaction rules.
use otelstore.Base.{Char, Option, List, Outcome, ok, err, All, All-append}
use otelstore.Value.{Resource, Scope}
use otelstore.Redact.{Redactor}
use otelstore.Sql.{Engine, IsLawful}
use otelstore.Sql.Rows.{Table, Row, Tables, rows_of, with_rows, spans, logs, metrics}
use otelstore.Store.Records.{Span, LogRecord, Metric}
use otelstore.Store.Inserts.{Store, insert_spans, insert_logs, insert_metrics}
use otelstore.Store.Atomicity.{IsStored}
use otelstore.Store.Batches.{insert_spans-IsStored, insert_logs-IsStored, insert_metrics-IsStored}
use otelstore.Store.Privacy.{
  AreMade, AreMade-map, AreMade-All, IsRedactedRow, IsRedacted, span_row-IsRedactedRow,
  log_row-IsRedactedRow, all_metric_rows-AreMade,
}

module _ (lower : Char → Char) (redactor : Option Redactor) where
  IsRedacted-with_rows :
      (db : Tables) (t : Table) (rows : List (Row t))
      → IsRedacted lower redactor db
      → All (IsRedactedRow lower redactor t) rows
      → IsRedacted lower redactor (with_rows db t rows)
  IsRedacted-with_rows db spans rows h k spans = k
  IsRedacted-with_rows db spans rows h k logs = h logs
  IsRedacted-with_rows db spans rows h k metrics = h metrics
  IsRedacted-with_rows db logs rows h k spans = h spans
  IsRedacted-with_rows db logs rows h k logs = k
  IsRedacted-with_rows db logs rows h k metrics = h metrics
  IsRedacted-with_rows db metrics rows h k spans = h spans
  IsRedacted-with_rows db metrics rows h k logs = h logs
  IsRedacted-with_rows db metrics rows h k metrics = k

  IsStored-IsRedacted :
      (t : Table) (made : List (Outcome (Row t))) (before after : Tables) (r : Outcome (Unit {0}))
      → AreMade (IsRedactedRow lower redactor t) made
      → IsStored t made before r after
      → IsRedacted lower redactor before
      → IsRedacted lower redactor after
  IsStored-IsRedacted t made before after (err e) m same h = rw same h
  IsStored-IsRedacted t made before after (ok _) m (rows, all_made, _, seen) h = rw seen (
      IsRedacted-with_rows before t _ h
        (All-append _ (rows_of before t) rows (h t) (AreMade-All _ rows (rw all_made at m))))

module _ (E : Engine) (law : IsLawful E) (lower : Char → Char) (s : Store E)
    (resource : Option Resource) (scope : Option Scope) where
  -- On a lawful engine: InsertSpans, InsertLogs and InsertMetrics, whatever they return, store no
  -- value that a rule of the store's redactor covers: if no row of any table had one, no row has
  -- one after them.
  pub inserts-IsRedacted :
      (span_batch : List Span) (log_batch : List LogRecord) (metric_batch : List Metric)
      → IsRedacted lower s.redactor (E.tables s.db)
      → IsRedacted lower s.redactor
          (E.tables (insert_spans E lower s span_batch resource scope).1.db)
        × IsRedacted lower s.redactor
            (E.tables (insert_logs E lower s log_batch resource scope).1.db)
        × IsRedacted lower s.redactor
            (E.tables (insert_metrics E lower s metric_batch resource scope).1.db)
  inserts-IsRedacted span_batch log_batch metric_batch h = (
    IsStored-IsRedacted lower s.redactor spans _ (E.tables s.db) _ _
        (AreMade-map _ _ span_batch (span_row-IsRedactedRow lower s.redactor resource scope))
        (insert_spans-IsStored E law lower s resource scope span_batch) h,
    IsStored-IsRedacted lower s.redactor logs _ (E.tables s.db) _ _
        (AreMade-map _ _ log_batch (log_row-IsRedactedRow lower s.redactor resource scope))
        (insert_logs-IsStored E law lower s resource scope log_batch) h,
    IsStored-IsRedacted lower s.redactor metrics _ (E.tables s.db) _ _
        (all_metric_rows-AreMade lower s.redactor resource scope metric_batch)
        (insert_metrics-IsStored E law lower s resource scope metric_batch) h,
  )
