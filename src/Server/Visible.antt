-- ===== src/Server/Visible.antt =====
-- The spans that the server of cmd/otelstore/main.go has acknowledged, and the queries for them.
use mathlib.Core.List.{Mem}
use otelstore.Base.{
  String, ◌≡◌, ◌≢◌, refl, ap, ◌∙◌, ◌≤◌, true, false, Option, none, some, List, [], keep, length,
  All, ok, concat, cut_prefix, cut_prefix-append, ◌==◌, arith,
}
use otelstore.Value.{Fields}
use otelstore.Http.{Request}
use otelstore.Sql.{Engine, IsLawful, IsReading}
use otelstore.Sql.Rows.{SpanRow}
use otelstore.Store.Records.{Span}
use otelstore.Store.Records.Hex.{hex_encode}
use otelstore.Store.Inserts.{Store}
use otelstore.Store.Queries.{get_trace}
use otelstore.Store.RoundTrip.{IsEntryOf, made_row, made_row-returned}
use otelstore.Store.Success.{queries_succeed}
use otelstore.Ingest.{ResourceGroup}
use otelstore.Ingest.Committed.{Batch, batches}
use otelstore.Query.{encode, trace_result, handle_get_trace, serve}
use otelstore.Auth.Guard as Guard
use otelstore.Server.Config.{Flags}
use otelstore.Server.Guarded.{with_auth_lem}
use otelstore.Server.Start.{World, Running, running, query_handler}
use otelstore.Server.System.{Event, queries, Answer, replied, handle, handle_all}
use otelstore.Server.Acknowledged.{IsAcknowledged, acknowledged-stored}
use otelstore.Server.Retained.{Spares, handle_all_kept}

same_end :
    {A B : Type 0} (r : Option (A × B)) (a b : A) (x y : B)
    → r ≡ some (a, x)
    → r ≡ some (b, y)
    → x ≡ y
same_end r a b x y h k = cc

module _ (E : Engine) (law : IsLawful E) (W : World E) (flags : Flags) (auth_token : String)
    (first : Store E) where
  abbrev R : Running E
  R = running E W flags auth_token first

  -- a request for a trace that may pass
  pub record Asks (trace_id : String) (q : Request) : Type 0 where
    pub admitted : Guard.IsAdmitted auth_token q
    pub by_get : q.method ≡ "GET"
    pub at_path : q.path ≡ concat "/v1/traces/" trace_id
    pub not_redirected : W.redirect q.path ≡ none

  served_trace :
      (q : Request) (trace_id : String) (u : Store E) (found : List Fields)
      → Asks trace_id q
      → trace_id ≢ ""
      → get_trace E u trace_id ≡ ok found
      → serve E u W.redirect q ≡ encode (trace_result trace_id found)
  unfolding serve handle_get_trace
  served_trace q trace_id u found asks n h =
      let cut : cut_prefix q.path "/v1/traces/" ≡ some trace_id =
        rw asks.at_path (cut_prefix-append "/v1/traces/" trace_id) in
      let get : (q.method == "GET") ≡ true = ground (arith, asks.by_get) in
      let some_id : (trace_id == "") ≡ false = ground arith in
      rw (asks.not_redirected, cut, serve, handle_get_trace, get, some_id, h) refl

  module _ (e : Event) (a : Answer) (sent : List (ResourceGroup Span)) (s after : Store E)
      (done : handle E W.decimal R e s ≡ some (a, after)) (ack : IsAcknowledged W e a sent)
      (b : Batch Span) (span : Span) (sent_in : Mem b (batches sent))
      (among : Mem span b.items) where
    abbrev row : SpanRow
    row = made_row W.lower s.redactor b.resource b.scope span

    -- On a lawful engine that runs every query: Let the server have acknowledged an export request
    -- of spans, by status 200 of the ingest server at /v1/traces or by the empty response over
    -- gRPC, and let it then have handled any requests and calls, and any ticks of a sweeper that
    -- enforces no size, at times when a span of that request was not older than the retention. Then
    -- an admitted GET of /v1/traces/ and the trace id of that span, if that
    -- is not empty, and at most 10000 spans of the trace are stored, is answered with the encoding
    -- of a list of spans, one of which is that span, with its trace, span and parent ids, its name, kind
    -- and times, the code and the message of its status, its run and job ids and its merged and
    -- redacted attributes.
    pub acknowledged-visible :
        IsReading E
        → (es : List Event) (answers : List Answer) (u : Store E) (q : Request)
        → All (Spares flags row) es
        → handle_all E W.decimal R es after ≡ some (answers, u)
        → Asks (hex_encode span.trace_id) q
        → hex_encode span.trace_id ≢ ""
        → length (keep (λ row. row.trace_id == hex_encode span.trace_id) (E.tables u.db).span_rows)
          ≤ 10000
        → (found : List Fields) × (handle E W.decimal R (queries q) u
            ≡ some (
              replied (record {
                lines = [];
                response = encode (trace_result (hex_encode span.trace_id) found);
              }),
              u,
            ))
          × ((entry : Fields) × Mem entry found
              × IsEntryOf W.lower s.redactor b.resource b.scope span entry)
    unfolding handle running
    acknowledged-visible reading es answers u q spared ends asks n few =
        let (found, h) = (queries_succeed E reading u).0 (hex_encode span.trace_id) in
        let (_, w, all_end, kept) =
          handle_all_kept E law W flags auth_token first row es after spared (
            acknowledged-stored E law W flags auth_token first e a sent s after b span done ack
              sent_in among) in
        let last : w ≡ u = same_end _ _ _ _ _ all_end ends in
        (
          found,
          ap (λ p. some (replied p.0, p.1))
                ((with_auth_lem auth_token (query_handler E W flags) q u).0 asks.admitted)
              ∙ ap (λ x. some (replied (record { lines = []; response = x }), u))
                  (served_trace q (hex_encode span.trace_id) u found asks n h),
          made_row-returned W.lower s.redactor b.resource b.scope span E law u found
              (rw last at kept) h few,
        )
