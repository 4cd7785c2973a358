-- ===== src/Tests/Acknowledged.antt =====
-- A span that was acknowledged over HTTP, and is asked for.
use mathlib.Core.List.{Mem, mem-cons_self}
use otelstore.Base.{
  ◌≡◌, ◌≢◌, refl, ◌≤◌, length, keep, none, some, List, [], ◌∷◌, ◌==◌, string_discrete, inr, arith,
}
use otelstore.Value.{Fields}
use otelstore.Http.{Request}
use otelstore.Sql.Memory.{memory, memory-IsLawful, memory-IsReading, no_rows}
use otelstore.Store.Records.{Span}
use otelstore.Store.Records.Hex.{hex_encode, hex_digit}
use otelstore.Store.Inserts.{Store}
use otelstore.Store.RoundTrip.{IsEntryOf}
use otelstore.Ingest.{ResourceGroup, store_traces, walk, walk_scopes}
use otelstore.Ingest.Committed.{Batch}
use otelstore.Auth.{middleware, token_valid}
use otelstore.Receiver.{
  serve_http, handle_traces, handle_export, read_and_decode, read_body, decode_request,
  request_is_json, write_response,
}
use otelstore.Receiver.Ingesting.{IsAccepted}
use otelstore.Query.{encode, trace_result}
use otelstore.Server.Config.{with_auth}
use otelstore.Server.Start.{running, start_sweeper}
use otelstore.Server.Started.{configured}
use otelstore.Server.Sweep.{sweep, sweep_age, sweep_size, sweeps, cutoff}
use otelstore.Store.Retention.{delete_before, delete_from}
use otelstore.Server.System.{
  Event, ingests, Answer, ticks, swept, on_tick, handle, queries, replied, handle_all,
}
use otelstore.Server.Visible.{Asks, acknowledged-visible}
use otelstore.Tests.Fixtures.{ascii_lower, host, login_span, later_span, redacting_store}
use otelstore.Tests.Storing.{storing}
use otelstore.Tests.Receiving.{codec, decoders, two_scopes}
use otelstore.Tests.Running.{flags, world, server, posted, header_of}

abbrev asked : Request
asked = record {
  method = "GET";
  path = "/v1/traces/ab01";
  remote_addr = "127.0.0.1:999";
  header = header_of "Bearer abc" "";
  query = λ name. "";
  body = [];
  body_error = none;
}

abbrev sent : List (ResourceGroup Span)
sent = two_scopes (login_span ∷ []) (later_span ∷ [])

abbrev login_batch : Batch Span
login_batch = record { items = login_span ∷ []; resource = host; scope = none }

posted_good : (server.ingest.handler posted redacting_store).0.response.status ≡ 200
unfolding storing running header_of string_discrete with_auth middleware token_valid serve_http
    handle_traces handle_export read_and_decode read_body decode_request request_is_json
    store_traces walk walk_scopes write_response
posted_good = refl

posted-IsAccepted : IsAccepted codec decoders.traces posted sent
unfolding header_of string_discrete decode_request request_is_json
posted-IsAccepted = record { post = refl; small = omega arith; arrived = refl; decoded = refl }

login-Asks :
    Asks memory memory-IsLawful world flags "abc"
      (configured memory world flags no_rows)
      (hex_encode login_span.trace_id)
      asked
unfolding header_of string_discrete hex_encode hex_digit
login-Asks = record {
  admitted = inr (inr (inr refl));
  by_get = refl;
  at_path = refl;
  not_redirected = refl;
}

abbrev later : Store memory
later = (server.ingest.handler posted redacting_store).1

has_id : hex_encode login_span.trace_id ≢ ""
unfolding hex_encode hex_digit string_discrete
has_id h = cc

few_later :
    length
      (keep (λ r. r.trace_id == hex_encode login_span.trace_id) (memory.tables later.db).span_rows)
    ≤ 10000
unfolding storing running header_of string_discrete with_auth middleware token_valid serve_http
    handle_traces handle_export read_and_decode read_body decode_request request_is_json
    store_traces walk walk_scopes write_response
few_later = omega arith

-- the sweeper ticks 20 ns after the start of the span, and the retention is 50 ns
abbrev one_tick : List Event
one_tick = ticks 120 ∷ []

ticked : handle_all memory world.decimal server one_tick later ≡ some (swept [] ∷ [], later)
unfolding storing running header_of string_discrete with_auth middleware token_valid serve_http
    handle_traces handle_export read_and_decode read_body decode_request request_is_json
    store_traces walk walk_scopes write_response handle handle_all on_tick start_sweeper sweep
    sweep_age sweep_size sweeps cutoff delete_before delete_from
ticked = refl

abbrev posted_reply : Answer
posted_reply = replied (server.ingest.handler posted redacting_store).0

posted_replied :
    handle memory world.decimal server (ingests posted) redacting_store ≡ some (posted_reply, later)
unfolding handle
posted_replied = refl

acknowledged-visible_example :
    (found : List Fields) × (handle memory world.decimal server (queries asked) later
      ≡ some (
        replied (record {
          lines = [];
          response = encode (trace_result (hex_encode login_span.trace_id) found);
        }),
        later,
      ))
    × ((entry : Fields) × Mem entry found
        × IsEntryOf ascii_lower redacting_store.redactor host none login_span entry)
acknowledged-visible_example =
    acknowledged-visible memory memory-IsLawful world flags "abc"
      (configured memory world flags no_rows) (ingests posted) posted_reply sent redacting_store
      later posted_replied (refl, posted_good, posted-IsAccepted) login_batch login_span
      mem-cons_self mem-cons_self memory-IsReading one_tick (swept [] ∷ []) later asked
      ((tt, omega arith), tt) ticked login-Asks has_id few_later
