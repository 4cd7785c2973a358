-- ===== src/Tests/Storing.antt =====
-- Inserts into the engine that keeps its tables in memory.
use mathlib.Core.List.{Mem, mem-cons_self}
use otelstore.Base.{
  List, length, keep, ◌==◌, ◌≤◌, ◌↔◌, arith, ◌≡◌, refl, none, [], ◌∷◌, map, Outcome, ok, err,
  string_discrete, cut_suffix, trim_space, ℕ_discrete,
}
use otelstore.Value.{Fields, merge_attributes, convert_any_value, insert, lookup}
use otelstore.Value.Json.{marshal, is_encodable}
use otelstore.Float.{is_finite, is_nan, float64_of_int}
use otelstore.Redact.{new, match, apply}
use otelstore.Sql.Memory.{memory, sort, memory-IsLawful, memory-IsWriting}
use otelstore.Sql.Rows.{SpanRow, spans, logs, metrics}
use otelstore.Store.Records.{
  Span, span_row, log_row, point_row, metric_rows, all_metric_rows, merged_attrs, extract_metadata,
  event_attrs, event_value, event_values, events_column, extract_double_value,
}
use otelstore.Store.Records.Hex.{hex_encode, hex_digit}
use otelstore.Store.Inserts.{Store, insert_spans, insert_logs, insert_metrics, in_transaction}
use otelstore.Store.Atomicity.{IsStored, AreFresh}
use otelstore.Store.Batches.{insert_spans-IsStored}
use otelstore.Store.Privacy.{IsRedacted}
use otelstore.Store.Success.{insert_spans_succeeds}
use otelstore.Store.RoundTrip.{IsEntryOf, get_trace-insert_spans}
use otelstore.Store.Queries.{get_trace, find_spans, scan, span_entry}
use otelstore.Tests.Fixtures.{
  ascii_lower, host, login_span, later_span, nan_span, fresh_store, redacting_store,
}

unfoldable pub storing : Unit {0}
unfolding ℕ_discrete string_discrete cut_suffix trim_space merge_attributes convert_any_value insert
    lookup marshal is_encodable is_finite is_nan float64_of_int new match apply span_row log_row
    point_row metric_rows all_metric_rows merged_attrs extract_metadata event_attrs event_value
    event_values events_column extract_double_value hex_encode hex_digit insert_spans insert_logs
    insert_metrics in_transaction ascii_lower
storing = tt

stored_once :
    (insert_spans memory ascii_lower redacting_store (login_span ∷ later_span ∷ []) host none).0
    ≡ ok tt
unfolding storing
stored_once = refl

nan_refused :
    (insert_spans memory ascii_lower fresh_store (login_span ∷ nan_span ∷ []) host none)
    ≡ (err "failed to marshal attributes: json: unsupported value", fresh_store)
unfolding storing
nan_refused = refl

insert_spans-IsStored_example :
    IsStored spans
      (map (span_row ascii_lower none host none) (login_span ∷ []))
      (memory.tables fresh_store.db)
      (insert_spans memory ascii_lower fresh_store (login_span ∷ []) host none).0
      (memory.tables (insert_spans memory ascii_lower fresh_store (login_span ∷ []) host none).1.db)
insert_spans-IsStored_example =
    insert_spans-IsStored memory memory-IsLawful ascii_lower fresh_store host none (login_span ∷ [])

abbrev once : Outcome (Unit {0}) × Store memory
once = insert_spans memory ascii_lower redacting_store (login_span ∷ later_span ∷ []) host none

no_row_yet : IsRedacted ascii_lower redacting_store.redactor (memory.tables redacting_store.db)
no_row_yet spans = tt
no_row_yet logs = tt
no_row_yet metrics = tt

abbrev stored_batch : List Span
stored_batch = login_span ∷ later_span ∷ []

abbrev after_batch : Store memory
after_batch = (insert_spans memory ascii_lower redacting_store stored_batch host none).1

found_again :
    get_trace memory after_batch (hex_encode login_span.trace_id)
    ≡ ok (map span_entry (memory.tables after_batch.db).span_rows)
unfolding storing get_trace find_spans scan sort
found_again = refl

few_spans :
    length (
      keep
        (λ r. r.trace_id == hex_encode login_span.trace_id)
        (memory.tables after_batch.db).span_rows)
    ≤ 10000
unfolding storing
few_spans = omega arith

get_trace-insert_spans_example :
    (entry : Fields) × Mem entry (map span_entry (memory.tables after_batch.db).span_rows)
    × IsEntryOf ascii_lower redacting_store.redactor host none login_span entry
get_trace-insert_spans_example =
    get_trace-insert_spans memory memory-IsLawful ascii_lower redacting_store host none stored_batch
      login_span _ stored_once mem-cons_self found_again few_spans

insert_spans_succeeds_example :
    ((insert_spans memory ascii_lower redacting_store stored_batch host none).0 ≡ ok tt) ↔ (
      (rows : List SpanRow) × (map
          (span_row ascii_lower redacting_store.redactor host none)
          stored_batch
        ≡ map ok rows)
      × AreFresh spans (memory.tables redacting_store.db).span_rows rows)
insert_spans_succeeds_example =
    insert_spans_succeeds memory memory-IsLawful memory-IsWriting ascii_lower redacting_store host
      none stored_batch ((omega arith, omega arith), ((omega arith, omega arith), tt))
