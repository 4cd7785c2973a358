-- ===== src/Ingest.antt =====
-- The OTLP export requests that both receivers walk (internal/receiver/receiver.go and
-- internal/grpcreceiver/grpcreceiver.go), and the walk.
pub mod Committed
pub mod Signals
pub mod Growing
use otelstore.Base.{Char, String, Option, List, [], ◌∷◌, Outcome, ok, err}
use otelstore.Value.{Resource, Scope}
use otelstore.Sql.{Engine}
use otelstore.Store.Records.{Span, LogRecord, Metric}
use otelstore.Store.Inserts.{Store, insert_spans, insert_logs, insert_metrics}

-- ScopeSpans, ScopeLogs, ScopeMetrics
pub record ScopeGroup (A : Type 0) : Type 0 where
  pub items : List A
  pub scope : Option Scope

-- ResourceSpans, ResourceLogs, ResourceMetrics
pub record ResourceGroup (A : Type 0) : Type 0 where
  pub resource : Option Resource
  pub groups : List (ScopeGroup A)

module _ {A S : Type 0}
    (insert : List A → Option Resource → Option Scope → S → Outcome (Unit {0}) × S) where
  -- the inner loop
  unfoldable pub walk_scopes : Option Resource → List (ScopeGroup A) → S → Outcome (Unit {0}) × S
  walk_scopes resource [] s = (ok tt, s)
  walk_scopes resource (g ∷ groups) s =
      let (r, s') = insert g.items resource g.scope s in
      let rest = walk_scopes resource groups s' in elim r [ err e ↦ (err e, s') | ok _ ↦ rest ]

  -- the outer loop: the first error ends both
  unfoldable pub walk : List (ResourceGroup A) → S → Outcome (Unit {0}) × S
  walk [] s = (ok tt, s)
  walk (g ∷ groups) s =
      let (r, s') = walk_scopes g.resource g.groups s in
      let rest = walk groups s' in elim r [ err e ↦ (err e, s') | ok _ ↦ rest ]

module _ (E : Engine) (lower : Char → Char) where
  unfoldable pub store_traces : List (ResourceGroup Span) → Store E → Outcome (Unit {0}) × Store E
  store_traces = walk (λ items resource scope s. insert_spans E lower s items resource scope)

  unfoldable pub store_logs :
      List (ResourceGroup LogRecord) → Store E → Outcome (Unit {0}) × Store E
  store_logs = walk (λ items resource scope s. insert_logs E lower s items resource scope)

  unfoldable pub store_metrics :
      List (ResourceGroup Metric) → Store E → Outcome (Unit {0}) × Store E
  store_metrics = walk (λ items resource scope s. insert_metrics E lower s items resource scope)
