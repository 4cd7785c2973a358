-- ===== src/Ingest/Growing.antt =====
-- The inserts that an export request runs, wherever it ends: the walk of
-- internal/receiver/receiver.go and internal/grpcreceiver/grpcreceiver.go.
use otelstore.Base.{Char, Option, List, [], ◌∷◌, Outcome, Outcome-cases, inl, inr}
use otelstore.Value.{Resource, Scope}
use otelstore.Sql.{Engine}
use otelstore.Store.Records.{Span, LogRecord, Metric}
use otelstore.Store.Inserts.{Store}
use otelstore.Store.Steps.{
  spans_inserted, logs_inserted, metrics_inserted, Grown, grown_none, grown_by,
}
use otelstore.Ingest.{
  ScopeGroup, ResourceGroup, walk_scopes, walk, store_traces, store_logs, store_metrics,
}

module _ {A S : Type 0}
    (insert : List A → Option Resource → Option Scope → S → Outcome (Unit {0}) × S)
    (Keeps : S → Type 0)
    (kept : (items : List A) (resource : Option Resource) (scope : Option Scope) (s : S)
      → Keeps s
      → Keeps (insert items resource scope s).1) where
  walk_scopes_keeps :
      (resource : Option Resource) (groups : List (ScopeGroup A)) (s : S)
      → Keeps s
      → Keeps (walk_scopes insert resource groups s).1
  unfolding walk_scopes
  walk_scopes_keeps resource [] s k = k
  walk_scopes_keeps resource (g ∷ groups) s k =
      let k' = kept g.items resource g.scope s k in
      elim (Outcome-cases (insert g.items resource g.scope s).0) [
        | inr (e, h) ↦ rw (h, walk_scopes) k'
        | inl (_, h) ↦ rw (h, walk_scopes) (walk_scopes_keeps resource groups _ k')
      ]

  -- what every insert keeps, the walk keeps
  pub walk_keeps :
      (groups : List (ResourceGroup A)) (s : S) → Keeps s → Keeps (walk insert groups s).1
  unfolding walk
  walk_keeps [] s k = k
  walk_keeps (g ∷ groups) s k =
      let k' = walk_scopes_keeps g.resource g.groups s k in
      elim (Outcome-cases (walk_scopes insert g.resource g.groups s).0) [
        | inr (e, h) ↦ rw (h, walk) k'
        | inl (_, h) ↦ rw (h, walk) (walk_keeps groups _ k')
      ]

module _ (E : Engine) (lower : Char → Char) (s : Store E) where
  pub store_traces-Grown :
      (sent : List (ResourceGroup Span)) → Grown E lower s (store_traces E lower sent s).1
  unfolding store_traces
  store_traces-Grown sent =
      walk_keeps _ (Grown E lower s)
        (λ items resource scope x g. grown_by g (spans_inserted items resource scope)) sent s
        grown_none

  pub store_logs-Grown :
      (sent : List (ResourceGroup LogRecord)) → Grown E lower s (store_logs E lower sent s).1
  unfolding store_logs
  store_logs-Grown sent =
      walk_keeps _ (Grown E lower s)
        (λ items resource scope x g. grown_by g (logs_inserted items resource scope)) sent s
        grown_none

  pub store_metrics-Grown :
      (sent : List (ResourceGroup Metric)) → Grown E lower s (store_metrics E lower sent s).1
  unfolding store_metrics
  store_metrics-Grown sent =
      walk_keeps _ (Grown E lower s)
        (λ items resource scope x g. grown_by g (metrics_inserted items resource scope)) sent s
        grown_none
