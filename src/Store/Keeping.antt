-- ===== src/Store/Keeping.antt =====
-- What the inserts of internal/store/store.go leave alone: the redactor, and the tables of the other
-- signals.
use mathlib.Core.List.{append-nil}
use otelstore.Base.{Char, ◌≡◌, refl, ◌≢◌, Option, List, [], ◌∷◌, ◌++◌, Outcome, ok, err}
use otelstore.Value.{Resource, Scope}
use otelstore.Sql.{Engine}
use otelstore.Sql.Rows.{Table, Row, Tables, rows_of, spans, logs, metrics}
use otelstore.Store.Records.{Span, LogRecord, Metric}
use otelstore.Store.Inserts.{Store, insert_spans, insert_logs, insert_metrics}
use otelstore.Store.Atomicity.{IsStored}

module _ (E : Engine) (lower : Char → Char) (s : Store E) (resource : Option Resource)
    (scope : Option Scope) where
  pub spans_keep_redactor :
      (batch : List Span) → (insert_spans E lower s batch resource scope).1.redactor ≡ s.redactor
  unfolding insert_spans
  spans_keep_redactor [] = refl
  spans_keep_redactor (_ ∷ _) = refl

  pub logs_keep_redactor :
      (batch : List LogRecord)
      → (insert_logs E lower s batch resource scope).1.redactor ≡ s.redactor
  unfolding insert_logs
  logs_keep_redactor [] = refl
  logs_keep_redactor (_ ∷ _) = refl

  pub metrics_keep_redactor :
      (batch : List Metric)
      → (insert_metrics E lower s batch resource scope).1.redactor ≡ s.redactor
  unfolding insert_metrics
  metrics_keep_redactor [] = refl
  metrics_keep_redactor (_ ∷ _) = refl

-- the rows of every table stand in front of what it has later
abbrev pub Extends : Tables → Tables → Type 0
Extends before after =
    (t : Table) → (more : List (Row t)) × (rows_of after t ≡ rows_of before t ++ more)

pub IsStored-Extends :
    (t : Table) (made : List (Outcome (Row t))) (before after : Tables) (r : Outcome (Unit {0}))
    → IsStored t made before r after
    → Extends before after
IsStored-Extends t made before after (err e) same u = ([], rw (same, append-nil) refl)
IsStored-Extends spans made before after (ok _) (rows, _, _, seen) spans = (rows, rw seen refl)
IsStored-Extends spans made before after (ok _) (rows, _, _, seen) logs =
    ([], rw (seen, append-nil) refl)
IsStored-Extends spans made before after (ok _) (rows, _, _, seen) metrics =
    ([], rw (seen, append-nil) refl)
IsStored-Extends logs made before after (ok _) (rows, _, _, seen) spans =
    ([], rw (seen, append-nil) refl)
IsStored-Extends logs made before after (ok _) (rows, _, _, seen) logs = (rows, rw seen refl)
IsStored-Extends logs made before after (ok _) (rows, _, _, seen) metrics =
    ([], rw (seen, append-nil) refl)
IsStored-Extends metrics made before after (ok _) (rows, _, _, seen) spans =
    ([], rw (seen, append-nil) refl)
IsStored-Extends metrics made before after (ok _) (rows, _, _, seen) logs =
    ([], rw (seen, append-nil) refl)
IsStored-Extends metrics made before after (ok _) (rows, _, _, seen) metrics = (rows, rw seen refl)

pub same_spans :
    (t : Table) (made : List (Outcome (Row t))) (before after : Tables) (r : Outcome (Unit {0}))
    → IsStored t made before r after
    → t ≢ spans
    → after.span_rows ≡ before.span_rows
same_spans t made before after (err e) same n = rw same refl
same_spans spans made before after (ok _) h n = absurd (n refl)
same_spans logs made before after (ok _) (rows, _, _, seen) n = rw seen refl
same_spans metrics made before after (ok _) (rows, _, _, seen) n = rw seen refl
