-- ===== src/Tests/Concurrency.antt =====
-- Requests that reach the store at the same time, and the ids of spans.
use otelstore.Base.{none, List, [], ◌∷◌, ◌≡◌, refl, ◌↔◌, true, ◌==◌, ok, map, arith}
use otelstore.Sql.Memory.{memory, memory-IsLawful}
use otelstore.Sql.Rows.{SpanRow, same_key}
use otelstore.Store.Inserts.{Store}
use otelstore.Store.Records.{span_row}
use otelstore.Store.Records.Hex.{hex_encode}
use otelstore.Store.RoundTrip.{made_row}
use otelstore.Store.Bags.{Call, span_call, log_call, call, view, IsAdded, call-IsAdded}
use otelstore.Store.Identity.{HasByteIds, ids_lem}
use otelstore.Ingest.{walk, walk_scopes, store_traces, store_logs}
use otelstore.Grpc.{Export, traces, logs}
use otelstore.Server.Schedule.{calls, Interleaved, all_done, one_done, takes}
use otelstore.Server.Concurrent.{run_all, store_requests, interleaved_lem}
use otelstore.Tests.Fixtures.{
  ascii_lower, host, login_span, later_span, login_event, redacting_store,
}
use otelstore.Tests.Storing.{storing}

abbrev span_batch : Call
span_batch = span_call (login_span ∷ []) host none

abbrev log_batch : Call
log_batch = log_call (login_event ∷ []) host none

call-IsAdded_example :
    IsAdded memory ascii_lower memory-IsLawful span_batch redacting_store
      (call memory ascii_lower span_batch redacting_store).0
      (call memory ascii_lower span_batch redacting_store).1
call-IsAdded_example = call-IsAdded memory ascii_lower memory-IsLawful span_batch redacting_store

abbrev two_requests : List Export
two_requests =
    traces (
      record { resource = host; groups = record { items = login_span ∷ []; scope = none } ∷ [] }
      ∷ [])
    ∷ logs (
        record { resource = host; groups = record { items = login_event ∷ []; scope = none } ∷ [] }
        ∷ [])
    ∷ []

logs_first : Interleaved (map calls two_requests) (log_batch ∷ span_batch ∷ [])
logs_first =
    takes ((span_batch ∷ []) ∷ []) [] log_batch []
      (takes [] ([] ∷ []) span_batch [] (one_done (one_done all_done)))

abbrev one_by_one : Store memory
one_by_one = (store_requests memory ascii_lower two_requests redacting_store).1

abbrev at_once : Store memory
at_once = (run_all memory ascii_lower (log_batch ∷ span_batch ∷ []) redacting_store).1

all_at_once :
    run_all memory ascii_lower (log_batch ∷ span_batch ∷ []) redacting_store ≡ (ok tt, at_once)
unfolding storing run_all
all_at_once = refl

all_one_by_one :
    store_requests memory ascii_lower two_requests redacting_store ≡ (ok tt, one_by_one)
unfolding storing store_requests store_traces store_logs walk walk_scopes
all_one_by_one = refl

interleaved_lem_example : view at_once.db ≡ view one_by_one.db
interleaved_lem_example =
    interleaved_lem memory ascii_lower memory-IsLawful two_requests (log_batch ∷ span_batch ∷ [])
      redacting_store at_once one_by_one logs_first all_at_once all_one_by_one

login_bytes : HasByteIds login_span
login_bytes = ((omega arith, (omega arith, tt)), (omega arith, tt))

later_bytes : HasByteIds later_span
later_bytes = ((omega arith, (omega arith, tt)), (omega arith, tt))

abbrev login_row : SpanRow
login_row = made_row ascii_lower none host none login_span

abbrev later_row : SpanRow
later_row = made_row ascii_lower none none none later_span

login_made : span_row ascii_lower none host none login_span ≡ ok login_row
unfolding storing
login_made = refl

later_made : span_row ascii_lower none none none later_span ≡ ok later_row
unfolding storing
later_made = refl

ids_lem_example :
    ((same_key login_row later_row ≡ true)
      ↔ ((login_span.trace_id ≡ later_span.trace_id) × (login_span.span_id ≡ later_span.span_id)))
    × (((later_row.trace_id == hex_encode login_span.trace_id) ≡ true)
        ↔ (login_span.trace_id ≡ later_span.trace_id))
ids_lem_example =
    ids_lem ascii_lower none none host none none none login_span later_span login_row later_row
      login_bytes later_bytes login_made later_made
