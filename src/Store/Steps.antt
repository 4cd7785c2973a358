-- ===== src/Store/Steps.antt =====
-- The calls of internal/store/store.go that change the database, as a step relation: each step is
-- one transaction, or one statement outside one.
use otelstore.Base.{Char, Option, List}
use otelstore.Base.Int.{ℤ}
use otelstore.Value.{Resource, Scope}
use otelstore.Sql.{Engine}
use otelstore.Sql.Rows.{Table}
use otelstore.Store.Records.{Span, LogRecord, Metric}
use otelstore.Store.Inserts.{Store, insert_spans, insert_logs, insert_metrics}
use otelstore.Store.Retention.{delete_from, evict_from}

module _ (E : Engine) (lower : Char → Char) where
  -- an insert of a batch, whatever it returns
  pub data Inserted (s : Store E) : Store E → Type 0 where
    spans_inserted :
        (batch : List Span) (resource : Option Resource) (scope : Option Scope)
        → Inserted s (insert_spans E lower s batch resource scope).1
    logs_inserted :
        (batch : List LogRecord) (resource : Option Resource) (scope : Option Scope)
        → Inserted s (insert_logs E lower s batch resource scope).1
    metrics_inserted :
        (batch : List Metric) (resource : Option Resource) (scope : Option Scope)
        → Inserted s (insert_metrics E lower s batch resource scope).1

  -- a statement of the sweeper on one table, or its checkpoint
  pub data Removed (s : Store E) : Store E → Type 0 where
    expired :
        (t : Table) (cutoff : ℤ) → Removed s (record s { db = (delete_from E t cutoff s.db).1 })
    evicted : (t : Table) → Removed s (record s { db = (evict_from E t s.db).1 })
    checkpointed : Removed s (record s { db = E.checkpoint s.db })

  pub data Step (s : Store E) : Store E → Type 0 where
    inserts : {u : Store E} → Inserted s u → Step s u
    removes : {u : Store E} → Removed s u → Step s u

  -- what some inserts lead to, and what any calls lead to
  pub data Grown (s : Store E) : Store E → Type 0 where
    grown_none : Grown s s
    grown_by : {t u : Store E} → Grown s t → Inserted t u → Grown s u

  pub data Reach (s : Store E) : Store E → Type 0 where
    here : Reach s s
    next : {t u : Store E} → Reach s t → Step t u → Reach s u
