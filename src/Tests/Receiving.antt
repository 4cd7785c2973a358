-- ===== src/Tests/Receiving.antt =====
-- Export requests over HTTP, with a codec of the tests.
use otelstore.Base.{◌≡◌, refl, false, none, List, [], ◌∷◌, Outcome, ok, err, Error, arith, All}
use otelstore.Http.{Request}
use otelstore.Sql.Memory.{memory, memory-IsLawful}
use otelstore.Sql.Rows.{spans}
use otelstore.Store.Records.{Span}
use otelstore.Store.Inserts.{Store}
use otelstore.Ingest.{ResourceGroup, store_traces, store_logs, store_metrics}
use otelstore.Ingest.Committed.{batches, IsCommitted}
use otelstore.Ingest.Signals.{spans_made, store_traces-IsCommitted}
use otelstore.Receiver.{
  max_body_bytes, Externals, Decoders, OtlpDecoders, Message, read_body, write_response,
  handle_export, serve_http, request_is_json,
}
use otelstore.Receiver.Outcomes.{IsSafe, IsRefusal}
use otelstore.Receiver.Ingesting.{IsAccepted, refusal_status, handle_export_lem}
use otelstore.Receiver.Logging.{IsHarmless, handle_export-AreSafe}
use otelstore.Receiver.Routing.{IsServed, serve_http-IsServed}
use otelstore.Receiver
use otelstore.Ingest
use otelstore.Tests.Storing.{storing}
use otelstore.Tests.Fixtures.{ascii_lower, host, login_span, later_span, fresh_store}

abbrev pub two_scopes : {A : Type 0} → List A → List A → List (ResourceGroup A)
two_scopes xs ys =
    record {
      resource = host;
      groups = record { items = xs; scope = none } ∷ record { items = ys; scope = none } ∷ [];
    }
    ∷ []

store_traces-IsCommitted_example :
    IsCommitted spans
      (spans_made ascii_lower none)
      (batches (two_scopes (login_span ∷ []) (login_span ∷ [])))
      (memory.tables fresh_store.db)
      (store_traces memory ascii_lower
        (two_scopes (login_span ∷ []) (login_span ∷ []))
        fresh_store).0
      (memory.tables
        (store_traces memory ascii_lower
          (two_scopes (login_span ∷ []) (login_span ∷ []))
          fresh_store).1.db)
store_traces-IsCommitted_example =
    store_traces-IsCommitted memory memory-IsLawful ascii_lower fresh_store
      (two_scopes (login_span ∷ []) (login_span ∷ []))

abbrev pub codec : Externals
codec = record {
  parse_media_type = λ s. ok s;
  is_format_char = λ c. false;
  marshal_json = λ m. ok [];
  marshal_proto = λ m. ok [];
  decimal = λ n. "42";
  quote = λ s. s;
  write = λ body. none;
}

-- every body is the request with one span
abbrev pub decoders : OtlpDecoders
decoders = record {
  traces = record {
    unmarshal_json = λ body. ok (two_scopes (login_span ∷ []) (later_span ∷ []));
    unmarshal_proto = λ body. ok [];
  };
  logs = record { unmarshal_json = λ body. ok []; unmarshal_proto = λ body. ok [] };
  metrics = record { unmarshal_json = λ body. ok []; unmarshal_proto = λ body. ok [] };
}

abbrev pub post_traces : Request
post_traces = record {
  method = "POST";
  path = "/v1/traces";
  remote_addr = "127.0.0.1:999";
  header = λ name. "application/json";
  query = λ name. "";
  body = 0x7b ∷ 0x7d ∷ [];
  body_error = none;
}

abbrev keep_traces : List (ResourceGroup Span) → Store memory → Outcome (Unit {0}) × Store memory
keep_traces = store_traces memory ascii_lower

handle_export_lem_example :
    (((req : List (ResourceGroup Span)) → ¬ IsAccepted codec decoders.traces post_traces req)
      → IsRefusal codec post_traces
          (refusal_status post_traces)
          (handle_export codec decoders.traces keep_traces post_traces fresh_store).0
        × ((handle_export codec decoders.traces keep_traces post_traces fresh_store).1
            ≡ fresh_store))
    × ((req : List (ResourceGroup Span))
        → IsAccepted codec decoders.traces post_traces req
        → ((keep_traces req fresh_store).0 ≡ ok tt
            → handle_export codec decoders.traces keep_traces post_traces fresh_store
              ≡ (write_response codec post_traces, (keep_traces req fresh_store).1))
          × ((e : Error)
              → (keep_traces req fresh_store).0 ≡ err e
              → IsRefusal codec post_traces 500
                  (handle_export codec decoders.traces keep_traces post_traces fresh_store).0
                × ((handle_export codec decoders.traces keep_traces post_traces fresh_store).1
                    ≡ (keep_traces req fresh_store).1)))
handle_export_lem_example =
    handle_export_lem codec decoders.traces keep_traces post_traces fresh_store

codec-IsHarmless : IsHarmless codec
codec-IsHarmless = record {
  ascii_format = λ c h. refl;
  decimal_ascii = λ n. omega arith;
  quote_safe = λ s h. h;
}

handle_export-AreSafe_example :
    All
      (IsSafe codec)
      (handle_export codec decoders.traces keep_traces post_traces fresh_store).0.lines
handle_export-AreSafe_example =
    handle_export-AreSafe codec codec-IsHarmless decoders.traces keep_traces post_traces fresh_store

served_traces :
    (serve_http codec decoders memory ascii_lower post_traces fresh_store).0.response.status ≡ 200
unfolding storing serve_http Receiver.handle_traces handle_export Receiver.read_and_decode read_body
    Receiver.decode_request request_is_json write_response store_traces Ingest.walk
    Ingest.walk_scopes
served_traces = refl

serve_http-IsServed_example :
    IsServed codec decoders memory memory-IsLawful ascii_lower post_traces fresh_store
serve_http-IsServed_example =
    serve_http-IsServed codec decoders memory memory-IsLawful ascii_lower post_traces fresh_store
      served_traces
