-- ===== src/Receiver/Routing.antt =====
-- What a response with status 200 of internal/receiver/receiver.go promises.
use mathlib.Core.List.{append-nil}
use otelstore.Base.{
  Char, ◌≡◌, ◌≢◌, refl, ap, ◌∙◌, none, List, ◌++◌, map, Outcome, ok, string_discrete, arith, ◌⊎◌,
  inl, inr,
}
use otelstore.Http.{Request, Reply}
use otelstore.Sql.{Engine, IsLawful}
use otelstore.Sql.Rows.{Table, Row, Tables, rows_of, with_rows, spans, logs, metrics}
use otelstore.Store.Inserts.{Store}
use otelstore.Ingest.{ResourceGroup, store_traces, store_logs, store_metrics}
use otelstore.Ingest.Committed.{Batch, batches, rows_made, IsCommitted}
use otelstore.Ingest.Signals.{
  spans_made, logs_made, metrics_made, store_traces-IsCommitted, store_logs-IsCommitted,
  store_metrics-IsCommitted,
}
use otelstore.Receiver.{
  not_found, Externals, Decoders, OtlpDecoders, reject, handle_traces, handle_logs, handle_metrics,
  serve_http,
}
use otelstore.Receiver.Outcomes.{reject-IsRefusal}
use otelstore.Receiver.Ingesting.{IsAccepted, handle_export_acknowledges}

-- The request was accepted, and the rows of all its scopes stand behind those of before, in order.
pub record IsIngested {A : Type 0} (X : Externals) (decoders : Decoders A) (t : Table)
    (made : Batch A → List (Outcome (Row t))) (r : Request) (before after : Tables) : Type 0 where
  pub req : List (ResourceGroup A)
  pub accepted : IsAccepted X decoders r req
  pub rows : List (Row t)
  pub were_made : rows_made made (batches req) ≡ map ok rows
  pub stored : after ≡ with_rows before t (rows_of before t ++ rows)

pub IsCommitted-whole :
    {A : Type 0} (t : Table) (made : Batch A → List (Outcome (Row t))) (sent : List (Batch A))
    (before after : Tables)
    → IsCommitted t made sent before (ok tt) after
    → (rows : List (Row t)) × (rows_made made sent ≡ map ok rows)
      × (after ≡ with_rows before t (rows_of before t ++ rows))
IsCommitted-whole t made sent before after c =
    let all_done : sent ≡ c.done =
      c.split ∙ ap (λ l. c.done ++ l) (c.whole refl) ∙ append-nil c.done in
    (c.rows, rw all_done c.were_made, c.stored)

module _ (X : Externals) (D : OtlpDecoders) (E : Engine) (law : IsLawful E) (lower : Char → Char)
    (r : Request) (s : Store E) where
  pub handle_traces-IsIngested :
      (handle_traces X D E lower r s).0.response.status ≡ 200
      → IsIngested X D.traces spans
          (spans_made lower s.redactor)
          r
          (E.tables s.db)
          (E.tables (handle_traces X D E lower r s).1.db)
  unfolding handle_traces
  handle_traces-IsIngested h =
      let (req, accepted, done, after) =
        handle_export_acknowledges X D.traces (store_traces E lower) r s h in
      let (rows, were_made, stored) =
        IsCommitted-whole spans _ _ (E.tables s.db) _
          (rw done at (store_traces-IsCommitted E law lower s req)) in
      record {
        req = req;
        accepted = accepted;
        rows = rows;
        were_made = were_made;
        stored = ap (λ (x : Store E). E.tables x.db) after ∙ stored;
      }

  handle_logs-IsIngested :
      (handle_logs X D E lower r s).0.response.status ≡ 200
      → IsIngested X D.logs logs
          (logs_made lower s.redactor)
          r
          (E.tables s.db)
          (E.tables (handle_logs X D E lower r s).1.db)
  unfolding handle_logs
  handle_logs-IsIngested h =
      let (req, accepted, done, after) =
        handle_export_acknowledges X D.logs (store_logs E lower) r s h in
      let (rows, were_made, stored) =
        IsCommitted-whole logs _ _ (E.tables s.db) _
          (rw done at (store_logs-IsCommitted E law lower s req)) in
      record {
        req = req;
        accepted = accepted;
        rows = rows;
        were_made = were_made;
        stored = ap (λ (x : Store E). E.tables x.db) after ∙ stored;
      }

  handle_metrics-IsIngested :
      (handle_metrics X D E lower r s).0.response.status ≡ 200
      → IsIngested X D.metrics metrics
          (metrics_made lower s.redactor)
          r
          (E.tables s.db)
          (E.tables (handle_metrics X D E lower r s).1.db)
  unfolding handle_metrics
  handle_metrics-IsIngested h =
      let (req, accepted, done, after) =
        handle_export_acknowledges X D.metrics (store_metrics E lower) r s h in
      let (rows, were_made, stored) =
        IsCommitted-whole metrics _ _ (E.tables s.db) _
          (rw done at (store_metrics-IsCommitted E law lower s req)) in
      record {
        req = req;
        accepted = accepted;
        rows = rows;
        were_made = were_made;
        stored = ap (λ (x : Store E). E.tables x.db) after ∙ stored;
      }

  abbrev pub served : Reply × Store E
  served = serve_http X D E lower r s

  abbrev pub IsServed : Type 0
  IsServed =
      ((r.path ≡ "/v1/traces")
        × IsIngested X D.traces spans (spans_made lower s.redactor) r (E.tables s.db)
            (E.tables (serve_http X D E lower r s).1.db))
      ⊎ (((r.path ≡ "/v1/logs")
            × IsIngested X D.logs logs (logs_made lower s.redactor) r (E.tables s.db)
                (E.tables (serve_http X D E lower r s).1.db))
          ⊎ ((r.path ≡ "/v1/metrics")
              × IsIngested X D.metrics metrics (metrics_made lower s.redactor) r (E.tables s.db)
                  (E.tables (serve_http X D E lower r s).1.db)))

  pub routes_traces : r.path ≡ "/v1/traces" → served ≡ handle_traces X D E lower r s
  unfolding serve_http
  routes_traces h = ground arith

  routes_logs : r.path ≡ "/v1/logs" → served ≡ handle_logs X D E lower r s
  unfolding serve_http string_discrete
  routes_logs h = rw h refl

  routes_metrics : r.path ≡ "/v1/metrics" → served ≡ handle_metrics X D E lower r s
  unfolding serve_http string_discrete
  routes_metrics h = rw h refl

  routes_nowhere :
      r.path ≢ "/v1/traces"
      → r.path ≢ "/v1/logs"
      → r.path ≢ "/v1/metrics"
      → served ≡ (reject X r 404 not_found "unknown route" "unknown route" none 0, s)
  unfolding serve_http
  routes_nowhere a b c = ground arith

  -- On a lawful engine: A request that the ingest server answers with 200 went to /v1/traces,
  -- /v1/logs or /v1/metrics, was a whole POST of at most 64 MiB that decodes, and the rows of all
  -- its scopes are stored, in order, behind those of before.
  pub serve_http-IsServed : served.0.response.status ≡ 200 → IsServed
  serve_http-IsServed h = elim (string_discrete r.path "/v1/traces") [
    | yes p ↦ inl (p, rw (routes_traces p) (handle_traces-IsIngested (rw (routes_traces p) at h)))
    | no a ↦ elim (string_discrete r.path "/v1/logs") [
      | yes p ↦ inr (inl (p, rw (routes_logs p) (handle_logs-IsIngested (rw (routes_logs p) at h))))
      | no b ↦ elim (string_discrete r.path "/v1/metrics") [
        | yes p ↦ inr (
            inr (p, rw (routes_metrics p) (handle_metrics-IsIngested (rw (routes_metrics p) at h))))
        | no c ↦ absurd (
            ground (
              arith,
              h,
              (reject-IsRefusal X r 404 not_found "unknown route" "unknown route" none 0).status_is,
              routes_nowhere a b c,
            ))
      ]
    ]
  ]
