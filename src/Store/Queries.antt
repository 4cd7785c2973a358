-- ===== src/Store/Queries.antt =====
-- QueryByKey, GetTrace, QueryMetrics, QueryLogs and the row scanners of internal/store/store.go.
use otelstore.Base.{
  String, Bool, true, false, ◌&&◌, none, some, List, map, keep, Outcome, ok, err, wrap, or_wrap,
  ◌>>=◌, concat, ◌==◌, if◌then◌else◌,
}
use otelstore.Base.Int.{ℤ, pos, lt_int, le_int, eq_int}
use otelstore.Value.{Value, Fields, string, int, double, encoded, no_fields, field_then, lookup}
use otelstore.Value.Json.{unmarshal_map, unmarshal_maps}
use otelstore.Sql.{Select, Fetched, fetched, columns_error, scan_error, rows_error, Engine}
use otelstore.Sql.Rows.{Column, text, document, SpanRow, LogRow, MetricRow, spans, logs, metrics}
use otelstore.Store.Inserts.{Store}

-- The text of a column, or the map that it decodes to; a text that does not decode stays.
unfoldable pub attributes_value : Column → Value
unfolding unmarshal_map
attributes_value (text s) = string s
attributes_value (document v) = elim (unmarshal_map v) [ some m ↦ m | none ↦ encoded v ]

-- the same for a list of maps
unfoldable pub events_value : Column → Value
unfolding unmarshal_maps
events_value (text s) = string s
events_value (document v) = elim (unmarshal_maps v) [ some ms ↦ ms | none ↦ encoded v ]

-- one round of the loop of `scanSpans`: `entry[col] = v` for each column of `SELECT *`, then decoding
unfoldable pub span_entry : SpanRow → Fields
unfolding attributes_value events_value
span_entry r = field_then "trace_id" (string r.trace_id) (
    field_then "span_id" (string r.span_id) (
      field_then "parent_span_id" (string r.parent_span_id) (
        field_then "name" (string r.name) (
          field_then "kind" (int r.kind) (
            field_then "start_ns" (int (pos r.start_ns)) (
              field_then "end_ns" (int (pos r.end_ns)) (
                field_then "status_code" (int r.status_code) (
                  field_then "status_message" (string r.status_message) (
                    field_then "run_id" (string r.run_id) (
                      field_then "job_id" (string r.job_id) (
                        field_then "attributes" (attributes_value r.attributes)
                          (field_then "events" (events_value r.events) no_fields))))))))))))

unfoldable pub log_entry : LogRow → Fields
unfolding attributes_value
log_entry r = field_then "trace_id" (string r.trace_id) (
    field_then "span_id" (string r.span_id) (
      field_then "time_ns" (int (pos r.time_ns)) (
        field_then "severity_number" (int r.severity_number) (
          field_then "severity_text" (string r.severity_text) (
            field_then "body" (string r.body) (
              field_then "run_id" (string r.run_id) (
                field_then "job_id" (string r.job_id) (
                  field_then "event_name" (string r.event_name)
                    (field_then "attributes" (attributes_value r.attributes) no_fields)))))))))

unfoldable pub metric_entry : MetricRow → Fields
unfolding attributes_value
metric_entry r = field_then "name" (string r.name) (
    field_then "value_double" (double r.value_double) (
      field_then "time_ns" (int (pos r.time_ns)) (
        field_then "run_id" (string r.run_id) (
          field_then "job_id" (string r.job_id)
            (field_then "attributes" (attributes_value r.attributes) no_fields)))))

-- the loop of the scanners, and their errors
unfoldable pub scan : {R : Type 0} → (R → Fields) → Fetched R → Outcome (List Fields)
scan entry (fetched rows) = ok (map entry rows)
scan entry (columns_error e) = err (wrap "failed to get columns: " e)
scan entry (scan_error e) = err (wrap "failed to scan row: " e)
scan entry (rows_error e) = err (wrap "rows error: " e)

-- the scanner of each table
abbrev pub scan_spans : Fetched SpanRow → Outcome (List Fields)
scan_spans = scan span_entry

abbrev pub scan_logs : Fetched LogRow → Outcome (List Fields)
scan_logs = scan log_entry

abbrev pub scan_metrics : Fetched MetricRow → Outcome (List Fields)
scan_metrics = scan metric_entry

-- if limit <= 0 { limit = 1000 }; if limit > 10000 { limit = 10000 }
unfoldable pub clamp_limit : ℤ → ℤ
clamp_limit limit =
    let given = if le_int limit (pos 0) then pos 1000 else limit in
    if lt_int (pos 10000) given then pos 10000 else given

abbrev pub max_trace_spans : ℤ
max_trace_spans = pos 10000

abbrev pub select_spans : (SpanRow → Bool) → ℤ → Select SpanRow
select_spans test limit = record { condition = test; order_by = λ r. r.start_ns; limit = limit }

abbrev pub select_logs : (LogRow → Bool) → ℤ → Select LogRow
select_logs test limit = record { condition = test; order_by = λ r. r.time_ns; limit = limit }

abbrev pub select_metrics : (MetricRow → Bool) → ℤ → Select MetricRow
select_metrics test limit = record { condition = test; order_by = λ r. r.time_ns; limit = limit }

-- AND event_name = ?, unless the name is empty
abbrev pub event_condition : String → LogRow → Bool
event_condition event_name r = if event_name == "" then true else r.event_name == event_name

-- AND severity_number >= ?, if the floor is positive
abbrev pub severity_condition : ℤ → LogRow → Bool
severity_condition min_severity r =
    if lt_int (pos 0) min_severity then le_int min_severity r.severity_number else true

-- whether the entry has status code 2
unfoldable pub is_error_entry : Fields → Bool
is_error_entry span = elim (lookup "status_code" span) [
  | some (int code) ↦ eq_int code (pos 2)
  | _ ↦ false
]

unfoldable pub error_spans : List Fields → List Fields
unfolding is_error_entry
error_spans = keep is_error_entry

module _ (E : Engine) (s : Store E) where
  unfoldable pub find_spans : (SpanRow → Bool) → ℤ → String → Outcome (List Fields)
  find_spans test limit failed = do
    found ← or_wrap failed (E.select spans (select_spans test limit) s.db)
    scan_spans found

  unfoldable pub find_logs : (LogRow → Bool) → ℤ → Outcome (List Fields)
  find_logs test limit = do
    found ← or_wrap "failed to query logs: " (E.select logs (select_logs test limit) s.db)
    scan_logs found

  -- the two queries of `QueryByKey`
  unfoldable pub find_both :
      (SpanRow → Bool) → (LogRow → Bool) → ℤ → Outcome (List Fields × List Fields)
  find_both span_test log_test limit = do
    span_entries ← find_spans span_test limit "failed to query spans: "
    log_entries ← find_logs log_test limit
    ok (span_entries, log_entries)

  unfoldable pub query_by_key : String → String → ℤ → Outcome (List Fields × List Fields)
  query_by_key key value limit =
      let n = clamp_limit limit in
      if key == "trace_id"
      then find_both (λ r. r.trace_id == value) (λ r. r.trace_id == value) n
      else if key == "run_id"
      then find_both (λ r. r.run_id == value) (λ r. r.run_id == value) n
      else if key == "job_id"
      then find_both (λ r. r.job_id == value) (λ r. r.job_id == value) n
      else err (concat "invalid key: " key)

  unfoldable pub get_trace : String → Outcome (List Fields)
  get_trace trace_id =
      find_spans (λ r. r.trace_id == trace_id) max_trace_spans "failed to query trace: "

  unfoldable pub find_metrics : (MetricRow → Bool) → ℤ → Outcome (List Fields)
  find_metrics test limit = do
    found ← or_wrap "failed to query metrics: " (E.select metrics (select_metrics test limit) s.db)
    scan_metrics found

  unfoldable pub query_metrics : String → ℤ → Outcome (List Fields)
  query_metrics name limit = find_metrics (λ r. r.name == name) (clamp_limit limit)

  unfoldable pub query_logs : String → ℤ → ℤ → Outcome (List Fields)
  query_logs event_name min_severity limit =
      find_logs (λ r. event_condition event_name r && severity_condition min_severity r)
        (clamp_limit limit)
