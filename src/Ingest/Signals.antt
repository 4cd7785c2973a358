-- ===== src/Ingest/Signals.antt =====
-- What the three kinds of export request leave in the store.
use otelstore.Base.{Char, ◌≡◌, refl, Option, List, map, Outcome, ◌∙◌}
use otelstore.Redact.{Redactor}
use otelstore.Sql.{Engine, IsLawful}
use otelstore.Sql.Rows.{SpanRow, LogRow, MetricRow, spans, logs, metrics}
use otelstore.Store.Records.{Span, LogRecord, Metric, span_row, log_row, all_metric_rows}
use otelstore.Store.Inserts.{Store}
use otelstore.Store.Keeping.{spans_keep_redactor, logs_keep_redactor, metrics_keep_redactor}
use otelstore.Store.Batches.{insert_spans-IsStored, insert_logs-IsStored, insert_metrics-IsStored}
use otelstore.Ingest.{ResourceGroup, store_traces, store_logs, store_metrics}
use otelstore.Ingest.Committed.{Batch, batches, IsCommitted, walk-IsCommitted}

module _ (lower : Char → Char) (redactor : Option Redactor) where
  -- the rows that a scope of a request is made into
  abbrev pub spans_made : Batch Span → List (Outcome SpanRow)
  spans_made b = map (span_row lower redactor b.resource b.scope) b.items

  abbrev pub logs_made : Batch LogRecord → List (Outcome LogRow)
  logs_made b = map (log_row lower redactor b.resource b.scope) b.items

  abbrev pub metrics_made : Batch Metric → List (Outcome MetricRow)
  metrics_made b = all_metric_rows lower redactor b.resource b.scope b.items

module _ (E : Engine) (law : IsLawful E) (lower : Char → Char) (s : Store E) where
  -- On a lawful engine: Storing an export request of spans stores the scopes up to some point, each
  -- whole, and of the others nothing; if it returns no error, all of them.
  pub store_traces-IsCommitted :
      (sent : List (ResourceGroup Span))
      → IsCommitted spans
          (spans_made lower s.redactor)
          (batches sent)
          (E.tables s.db)
          (store_traces E lower sent s).0
          (E.tables (store_traces E lower sent s).1.db)
  unfolding store_traces
  store_traces-IsCommitted sent =
      walk-IsCommitted spans _ (λ (x : Store E). E.tables x.db) (λ x. x.redactor ≡ s.redactor)
        (spans_made lower s.redactor)
        (λ b x k. spans_keep_redactor E lower x b.resource b.scope b.items ∙ k)
        (λ b x k. rw (← k) (insert_spans-IsStored E law lower x b.resource b.scope b.items)) sent s
        refl

  -- On a lawful engine: Storing an export request of log records stores the scopes up to some
  -- point, each whole, and of the others nothing; if it returns no error, all of them.
  pub store_logs-IsCommitted :
      (sent : List (ResourceGroup LogRecord))
      → IsCommitted logs
          (logs_made lower s.redactor)
          (batches sent)
          (E.tables s.db)
          (store_logs E lower sent s).0
          (E.tables (store_logs E lower sent s).1.db)
  unfolding store_logs
  store_logs-IsCommitted sent =
      walk-IsCommitted logs _ (λ (x : Store E). E.tables x.db) (λ x. x.redactor ≡ s.redactor)
        (logs_made lower s.redactor)
        (λ b x k. logs_keep_redactor E lower x b.resource b.scope b.items ∙ k)
        (λ b x k. rw (← k) (insert_logs-IsStored E law lower x b.resource b.scope b.items)) sent s
        refl

  -- On a lawful engine: Storing an export request of metrics stores the scopes up to some point,
  -- each whole, and of the others nothing; if it returns no error, all of them.
  pub store_metrics-IsCommitted :
      (sent : List (ResourceGroup Metric))
      → IsCommitted metrics
          (metrics_made lower s.redactor)
          (batches sent)
          (E.tables s.db)
          (store_metrics E lower sent s).0
          (E.tables (store_metrics E lower sent s).1.db)
  unfolding store_metrics
  store_metrics-IsCommitted sent =
      walk-IsCommitted metrics _ (λ (x : Store E). E.tables x.db) (λ x. x.redactor ≡ s.redactor)
        (metrics_made lower s.redactor)
        (λ b x k. metrics_keep_redactor E lower x b.resource b.scope b.items ∙ k)
        (λ b x k. rw (← k) (insert_metrics-IsStored E law lower x b.resource b.scope b.items)) sent
        s refl
