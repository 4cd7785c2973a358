-- ===== src/Sql/Rows.antt =====
-- The tables of `InitSchema` in internal/store/store.go, as rows in the order of their rowids.
use otelstore.Base.{ℕ, ◌^◌, ◌<◌, String, Bool, false, ◌&&◌, List, any, ◌==◌}
use otelstore.Base.Int.{ℤ}
use otelstore.Float.{is_nan}
use otelstore.Value.{Value}

-- A TEXT column that may hold JSON: the document that its text encodes, or a text that is none.
pub data Column : Type 0 where
  text : String → Column
  document : Value → Column

pub record SpanRow : Type 0 where
  pub trace_id : String
  pub span_id : String
  pub parent_span_id : String
  pub name : String
  pub kind : ℤ
  pub start_ns : ℕ
  pub end_ns : ℕ
  pub status_code : ℤ
  pub status_message : String
  pub run_id : String
  pub job_id : String
  pub attributes : Column
  pub events : Column

pub record LogRow : Type 0 where
  pub trace_id : String
  pub span_id : String
  pub time_ns : ℕ
  pub severity_number : ℤ
  pub severity_text : String
  pub body : String
  pub run_id : String
  pub job_id : String
  pub event_name : String
  pub attributes : Column

-- `value_double` is a REAL: the number that the bits of the double are
pub record MetricRow : Type 0 where
  pub name : String
  pub value_double : ℕ
  pub time_ns : ℕ
  pub run_id : String
  pub job_id : String
  pub attributes : Column

pub data Table : Type 0 where
  spans logs metrics : Table

abbrev pub Row : Table → Type 0
Row spans = SpanRow
Row logs = LogRow
Row metrics = MetricRow

-- the rows of every table
pub record Tables : Type 0 where
  pub span_rows : List SpanRow
  pub log_rows : List LogRow
  pub metric_rows : List MetricRow

abbrev pub rows_of : Tables → (t : Table) → List (Row t)
rows_of db spans = db.span_rows
rows_of db logs = db.log_rows
rows_of db metrics = db.metric_rows

-- the tables with the rows of one of them replaced
abbrev pub with_rows : Tables → (t : Table) → List (Row t) → Tables
with_rows db spans rows = record db { span_rows = rows }
with_rows db logs rows = record db { log_rows = rows }
with_rows db metrics rows = record db { metric_rows = rows }

-- the column by which the store orders and expires the rows of a table
abbrev pub time_of : (t : Table) → Row t → ℕ
time_of spans r = r.start_ns
time_of logs r = r.time_ns
time_of metrics r = r.time_ns

-- PRIMARY KEY (trace_id, span_id)
abbrev pub same_key : SpanRow → SpanRow → Bool
same_key r s = r.trace_id == s.trace_id && r.span_id == s.span_id

-- Whether a row breaks a constraint of its table beside the rows that are there. SQLite stores a NaN
-- as NULL, which `value_double REAL NOT NULL` refuses.
abbrev pub conflicts : (t : Table) → Row t → List (Row t) → Bool
conflicts spans r rows = any (same_key r) rows
conflicts logs r rows = false
conflicts metrics r rows = is_nan r.value_double

-- the times of the row are below 2 ^ 63, so that they fit the INTEGER of their columns
abbrev pub AreTimesShort : (t : Table) → Row t → Type 0
AreTimesShort spans r = (r.start_ns < 2 ^ 63) × (r.end_ns < 2 ^ 63)
AreTimesShort logs r = r.time_ns < 2 ^ 63
AreTimesShort metrics r = r.time_ns < 2 ^ 63
