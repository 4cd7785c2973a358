-- ===== src/Tests/Fixtures.antt =====
-- Inputs for the tests: a lower-case table for ASCII, attributes, records and stores.
use otelstore.Base.{Char, code, String, Option, none, some, List, [], ◌∷◌, nat_eq, if◌then◌else◌}
use otelstore.Base.Int.{pos}
use otelstore.Value.{
  string_value, int_value, double_value, KeyValues, no_key_values, key_value_then, Resource, object,
  null, no_fields,
}
use otelstore.Redact.{new}
use otelstore.Sql.Rows.{SpanRow, LogRow, MetricRow, Tables, document}
use otelstore.Sql.Memory.{memory, no_rows}
use otelstore.Store.Records.{Status, Span, LogRecord, Metric, as_int, gauge}
use otelstore.Store.Inserts.{Store}

letter_at : Char → String → String → Char
letter_at c (String.◌∷◌ upper us) (String.◌∷◌ lower ls) =
    let rest = letter_at c us ls in if nat_eq (code c) (code upper) then lower else rest
letter_at c _ _ = c

-- unicode.ToLower at ASCII letters
unfoldable pub ascii_lower : Char → Char
unfolding letter_at
ascii_lower c = letter_at c "ABCDEFGHIJKLMNOPQRSTUVWXYZ" "abcdefghijklmnopqrstuvwxyz"

abbrev pub login_attrs : KeyValues
login_attrs = key_value_then "run_id" (string_value "r1") (
    key_value_then "Authorization" (string_value "Bearer s3cret")
      (key_value_then "attempt" (int_value (pos 2)) no_key_values))

abbrev pub host : Option Resource
host = some (record {
  attributes =
      key_value_then "run_id" (string_value "r0")
        (key_value_then "host" (string_value "a") no_key_values);
})

abbrev pub failed_status : Option Status
failed_status = some (record { code = pos 2; message = "boom" })

-- bytes 0xab 0x01
abbrev pub login_span : Span
login_span = record {
  trace_id = 0xab ∷ 0x01 ∷ [];
  span_id = 0x07 ∷ [];
  parent_span_id = [];
  name = "login";
  kind = pos 1;
  start_time_unix_nano = 100;
  end_time_unix_nano = 200;
  attributes = login_attrs;
  events = record { name = "prompt"; time_unix_nano = 150; attributes = login_attrs } ∷ [];
  status = failed_status;
}

abbrev pub later_span : Span
later_span = record login_span { span_id = 0x08 ∷ []; start_time_unix_nano = 300; status = none }

-- a span with an attribute that is NaN
abbrev pub nan_span : Span
nan_span = record login_span {
  span_id = 0x09 ∷ [];
  attributes = key_value_then "x" (double_value 0x7ff8000000000001) no_key_values;
}

abbrev pub login_event : LogRecord
login_event = record {
  time_unix_nano = 120;
  severity_number = pos 17;
  severity_text = "ERROR";
  body = string_value "denied";
  attributes = key_value_then "event.name" (string_value "login.failed") login_attrs;
  trace_id = 0xab ∷ 0x01 ∷ [];
  span_id = [];
}

abbrev pub cost : Metric
cost = record {
  name = "cost";
  points = gauge (
      some (record { value = as_int (pos 3); time_unix_nano = 130; attributes = login_attrs })
      ∷ []);
}

abbrev pub rule_list : List String
rule_list = " AUTHorization " ∷ "gen_ai.prompt*" ∷ "  " ∷ []

-- the stores of the tests: an empty one, and one that redacts
abbrev pub fresh_store : Store memory
fresh_store = record { db = no_rows; redactor = none }

abbrev pub redacting_store : Store memory
redacting_store = record { db = no_rows; redactor = new ascii_lower rule_list }

-- Rows as they stand in the tables, and a store that has them.
abbrev pub old_row : SpanRow
old_row = record {
  trace_id = "ab01";
  span_id = "07";
  parent_span_id = "";
  name = "login";
  kind = pos 1;
  start_ns = 100;
  end_ns = 200;
  status_code = pos 2;
  status_message = "boom";
  run_id = "r1";
  job_id = "j1";
  attributes = document (object no_fields);
  events = document null;
}

abbrev pub new_row : SpanRow
new_row = record old_row { span_id = "08"; start_ns = 300; status_code = pos 0 }

abbrev pub event_row : LogRow
event_row = record {
  trace_id = "ab01";
  span_id = "";
  time_ns = 120;
  severity_number = pos 17;
  severity_text = "ERROR";
  body = "denied";
  run_id = "r1";
  job_id = "j1";
  event_name = "login.failed";
  attributes = document (object no_fields);
}

abbrev pub cost_row : MetricRow
cost_row = record {
  name = "cost";
  value_double = 0x4008000000000000;
  time_ns = 130;
  run_id = "r1";
  job_id = "j1";
  attributes = document (object no_fields);
}

-- the spans stand in the reverse order of their times
abbrev pub filled_tables : Tables
filled_tables = record {
  span_rows = new_row ∷ old_row ∷ [];
  log_rows = event_row ∷ [];
  metric_rows = cost_row ∷ [];
}

abbrev pub filled_store : Store memory
filled_store = record { db = filled_tables; redactor = none }
