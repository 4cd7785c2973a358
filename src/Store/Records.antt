-- ===== src/Store/Records.antt =====
-- The OTLP records that the inserts of internal/store/store.go read, and the row that each becomes.
pub mod Hex
use otelstore.Base.{
  ℕ, zero, suc, ◌/◌, ◌%◌, Char, String, Option, none, some, List, [], ◌∷◌, ◌++◌, map, Outcome, ok,
  err, or_wrap, ◌>>=◌,
}
use otelstore.Base.Int.{ℤ, pos}
use otelstore.Float.{float64_of_int}
use otelstore.Value.{
  AnyValue, nil_pointer, KeyValues, Resource, Scope, Value, Values, Fields, string, int, array,
  object, no_items, item_then, no_fields, field_then, lookup, convert_any_value, convert_all,
  merge_attributes, no_key_values,
}
use otelstore.Value.Json.{marshal}
use otelstore.Redact.{Redactor, apply}
use otelstore.Sql.Rows.{Column, text, document, SpanRow, LogRow, MetricRow}
use Hex.{hex_encode}

pub record Event : Type 0 where
  pub name : String
  pub time_unix_nano : ℕ
  pub attributes : KeyValues

pub record Status : Type 0 where
  pub code : ℤ
  pub message : String

pub record Span : Type 0 where
  pub trace_id : List ℕ
  pub span_id : List ℕ
  pub parent_span_id : List ℕ
  pub name : String
  pub kind : ℤ
  pub start_time_unix_nano : ℕ
  pub end_time_unix_nano : ℕ
  pub attributes : KeyValues
  pub events : List Event
  pub status : Option Status

-- a nil body is `nil_pointer`
pub record LogRecord : Type 0 where
  pub time_unix_nano : ℕ
  pub severity_number : ℤ
  pub severity_text : String
  pub body : AnyValue
  pub attributes : KeyValues
  pub trace_id : List ℕ
  pub span_id : List ℕ

pub data NumberValue : Type 0 where
  as_double : ℕ → NumberValue
  as_int : ℤ → NumberValue
  no_number : NumberValue

pub record NumberDataPoint : Type 0 where
  pub value : NumberValue
  pub time_unix_nano : ℕ
  pub attributes : KeyValues

-- The code asks for a gauge, then for a sum, and skips every other kind. A nil point is `none`.
pub data MetricData : Type 0 where
  gauge : List (Option NumberDataPoint) → MetricData
  sum : List (Option NumberDataPoint) → MetricData
  unsupported : MetricData

pub record Metric : Type 0 where
  pub name : String
  pub points : MetricData

-- v.(string), or "" where v is no string
abbrev pub string_or_blank : Option Value → String
string_or_blank (some (string s)) = s
string_or_blank _ = ""

unfoldable pub extract_metadata : Fields → String × String
extract_metadata attrs =
    (string_or_blank (lookup "run_id" attrs), string_or_blank (lookup "job_id" attrs))

unfoldable pub extract_double_value : Option NumberDataPoint → ℕ
extract_double_value none = 0
extract_double_value (some dp) = elim dp.value [
  | as_double d ↦ d
  | as_int n ↦ float64_of_int n
  | no_number ↦ 0
]

-- "" for an absent id
abbrev pub optional_hex : List ℕ → String
optional_hex [] = ""
optional_hex (b ∷ bs) = hex_encode (b ∷ bs)

abbrev pub status_code : Option Status → ℤ
status_code none = pos 0
status_code (some s) = s.code

abbrev pub status_message : Option Status → String
status_message none = ""
status_message (some s) = s.message

abbrev pub point_time : Option NumberDataPoint → ℕ
point_time none = 0
point_time (some dp) = dp.time_unix_nano

abbrev pub point_attributes : Option NumberDataPoint → KeyValues
point_attributes none = no_key_values
point_attributes (some dp) = dp.attributes

-- the text of the body, if it is a string
abbrev pub body_text : AnyValue → String
body_text body = string_or_blank (some (convert_any_value body))

-- `eventsJSON, _ = json.Marshal(events)`: nothing is stored where the encoder refuses
abbrev pub encoded_or_blank : Outcome Value → Column
encoded_or_blank (ok v) = document v
encoded_or_blank (err e) = text ""

module _ (lower : Char → Char) (redactor : Option Redactor) where
  unfoldable pub merged_attrs : Option Resource → Option Scope → KeyValues → Fields
  merged_attrs resource scope record_attrs =
      (apply lower redactor (merge_attributes resource scope record_attrs)).0

  unfoldable pub event_attrs : Event → Fields
  event_attrs evt = (apply lower redactor (convert_all evt.attributes no_fields)).0

  unfoldable pub event_value : Event → Value
  event_value evt = object (
      field_then "name" (string evt.name) (
        field_then "time_ns" (int (pos evt.time_unix_nano))
          (field_then "attributes" (object (event_attrs evt)) no_fields)))

  unfoldable pub event_values : List Event → Values
  event_values [] = no_items
  event_values (evt ∷ evts) = item_then (event_value evt) (event_values evts)

  unfoldable pub events_column : List Event → Column
  unfolding event_values event_value
  events_column [] = text ""
  events_column (evt ∷ evts) = encoded_or_blank (marshal (array (event_values (evt ∷ evts))))

  module _ (resource : Option Resource) (scope : Option Scope) where
    -- One round of the loop of `InsertSpans`, up to the INSERT.
    unfoldable pub span_row : Span → Outcome SpanRow
    span_row span = do
      let attrs = merged_attrs resource scope span.attributes
      let (run_id, job_id) = extract_metadata attrs
      attrs_json ← or_wrap "failed to marshal attributes: " (marshal (object attrs))
      ok (record {
        trace_id = hex_encode span.trace_id;
        span_id = hex_encode span.span_id;
        parent_span_id = optional_hex span.parent_span_id;
        name = span.name;
        kind = span.kind;
        start_ns = span.start_time_unix_nano;
        end_ns = span.end_time_unix_nano;
        status_code = status_code span.status;
        status_message = status_message span.status;
        run_id = run_id;
        job_id = job_id;
        attributes = document attrs_json;
        events = events_column span.events;
      })

    -- One round of the loop of `InsertLogs`, up to the INSERT.
    unfoldable pub log_row : LogRecord → Outcome LogRow
    log_row log = do
      let attrs = merged_attrs resource scope log.attributes
      let (run_id, job_id) = extract_metadata attrs
      attrs_json ← or_wrap "failed to marshal attributes: " (marshal (object attrs))
      ok (record {
        trace_id = optional_hex log.trace_id;
        span_id = optional_hex log.span_id;
        time_ns = log.time_unix_nano;
        severity_number = log.severity_number;
        severity_text = log.severity_text;
        body = body_text log.body;
        run_id = run_id;
        job_id = job_id;
        event_name = string_or_blank (lookup "event.name" attrs);
        attributes = document attrs_json;
      })

    unfoldable pub point_row : String → Option NumberDataPoint → Outcome MetricRow
    point_row metric_name dp = do
      let attrs = merged_attrs resource scope (point_attributes dp)
      let (run_id, job_id) = extract_metadata attrs
      attrs_json ← or_wrap "failed to marshal attributes: " (marshal (object attrs))
      ok (record {
        name = metric_name;
        value_double = extract_double_value dp;
        time_ns = point_time dp;
        run_id = run_id;
        job_id = job_id;
        attributes = document attrs_json;
      })

    -- the points of one metric, in order
    unfoldable pub metric_rows : Metric → List (Outcome MetricRow)
    metric_rows metric = elim metric.points [
      | gauge dps ↦ map (point_row metric.name) dps
      | sum dps ↦ map (point_row metric.name) dps
      | unsupported ↦ []
    ]

    unfoldable pub all_metric_rows : List Metric → List (Outcome MetricRow)
    all_metric_rows [] = []
    all_metric_rows (metric ∷ metrics) = metric_rows metric ++ all_metric_rows metrics
