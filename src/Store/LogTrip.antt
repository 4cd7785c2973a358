-- ===== src/Store/LogTrip.antt =====
-- Log records of internal/store/store.go, from InsertLogs to QueryByKey.
use mathlib.Core.List.{Mem, mem-append_right}
use otelstore.Base.{
  ℕ, [], ◌∷◌, Char, String, ◌≡◌, refl, sym, ap, ◌∙◌, ◌≤◌, true, Bool-cases, ◌⊎◌, Error, none, wrap,
  if◌then◌else◌, inl, inr, Option, some, List, keep, length, ok, err, ◌==◌, string_discrete, arith,
}
use otelstore.Base.Int.{ℤ, pos}
use otelstore.Value.{
  AnyValue, nil_pointer, string_value, bool_value, int_value, double_value, nil_array_value,
  array_value, nil_kvlist_value, kvlist_value, other_value, convert_any_value, Fields, string, int,
  object, lookup, Resource, Scope,
}
use otelstore.Value.Json.{unsupported_value, marshal, is_encodable, decoded_fields}
use otelstore.Redact.{Redactor}
use otelstore.Sql.{Engine, IsLawful}
use otelstore.Sql.Rows.{LogRow, document}
use otelstore.Store.Records.{
  LogRecord, log_row, merged_attrs, extract_metadata, string_or_blank, optional_hex, body_text,
}
use otelstore.Store.Records.Hex.{hex_encode}
use otelstore.Store.Inserts.{Store, insert_logs}
use otelstore.Store.Batches.{insert_logs-IsStored}
use otelstore.Store.Queries.{log_entry, query_by_key}
use otelstore.Store.Answers.{
  LookupKey, by_trace_id, by_run_id, by_job_id, key_text, log_column, effective_limit,
  query_by_key-Promised,
}
use otelstore.Store.Found.{Mem-map, Mem-made, not-made, Promised-Mem}

-- The text that is stored of a body: a string, and what is neither a string nor any of the kinds
-- below as `%v` prints it; of a missing body, and of a Boolean, a number, an array and a map, nothing.
abbrev pub IsBodyText : AnyValue → String → Type 0
IsBodyText nil_pointer t = t ≡ ""
IsBodyText (string_value s) t = t ≡ s
IsBodyText (bool_value b) t = t ≡ ""
IsBodyText (int_value n) t = t ≡ ""
IsBodyText (double_value d) t = t ≡ ""
IsBodyText nil_array_value t = t ≡ ""
IsBodyText (array_value vs) t = t ≡ ""
IsBodyText nil_kvlist_value t = t ≡ ""
IsBodyText (kvlist_value kvs) t = t ≡ ""
IsBodyText (other_value s) t = t ≡ s

body_text-IsBodyText : (body : AnyValue) → IsBodyText body (body_text body)
unfolding convert_any_value
body_text-IsBodyText nil_pointer = refl
body_text-IsBodyText (string_value s) = refl
body_text-IsBodyText (bool_value b) = refl
body_text-IsBodyText (int_value n) = refl
body_text-IsBodyText (double_value d) = refl
body_text-IsBodyText nil_array_value = refl
body_text-IsBodyText (array_value vs) = refl
body_text-IsBodyText nil_kvlist_value = refl
body_text-IsBodyText (kvlist_value kvs) = refl
body_text-IsBodyText (other_value s) = refl

-- the hex text of an id, and the empty text if there is none
abbrev pub IsIdText : List ℕ → String → Type 0
IsIdText [] t = t ≡ ""
IsIdText (b ∷ bs) t = t ≡ hex_encode (b ∷ bs)

optional_hex-IsIdText : (id : List ℕ) → IsIdText id (optional_hex id)
optional_hex-IsIdText [] = refl
optional_hex-IsIdText (b ∷ bs) = refl

-- what the entry of a row that a log record was made into says of it
pub record IsLogEntryOf (log : LogRecord) (attrs : Fields) (entry : Fields) : Type 0 where
  pub trace_id :
      (t : String) × (lookup "trace_id" entry ≡ some (string t)) × IsIdText log.trace_id t
  pub span_id : (t : String) × (lookup "span_id" entry ≡ some (string t)) × IsIdText log.span_id t
  pub time_ns : lookup "time_ns" entry ≡ some (int (pos log.time_unix_nano))
  pub severity_number : lookup "severity_number" entry ≡ some (int log.severity_number)
  pub severity_text : lookup "severity_text" entry ≡ some (string log.severity_text)
  pub body : (t : String) × (lookup "body" entry ≡ some (string t)) × IsBodyText log.body t
  pub run_id : lookup "run_id" entry ≡ some (string (string_or_blank (lookup "run_id" attrs)))
  pub job_id : lookup "job_id" entry ≡ some (string (string_or_blank (lookup "job_id" attrs)))
  pub event_name :
      lookup "event_name" entry ≡ some (string (string_or_blank (lookup "event.name" attrs)))
  -- the attributes, as JSON brings them back
  pub attributes : lookup "attributes" entry ≡ some (object (decoded_fields attrs))

-- the columns of the row that a lookup goes by
abbrev pub key_value : LookupKey → LogRecord → Fields → String
key_value by_trace_id log attrs = optional_hex log.trace_id
key_value by_run_id log attrs = string_or_blank (lookup "run_id" attrs)
key_value by_job_id log attrs = string_or_blank (lookup "job_id" attrs)

abbrev made_log : LogRecord → Fields → LogRow
made_log log attrs = record {
  trace_id = optional_hex log.trace_id;
  span_id = optional_hex log.span_id;
  time_ns = log.time_unix_nano;
  severity_number = log.severity_number;
  severity_text = log.severity_text;
  body = body_text log.body;
  run_id = string_or_blank (lookup "run_id" attrs);
  job_id = string_or_blank (lookup "job_id" attrs);
  event_name = string_or_blank (lookup "event.name" attrs);
  attributes = document (object attrs);
}

made_log-IsLogEntryOf :
    (log : LogRecord) (attrs : Fields) → IsLogEntryOf log attrs (log_entry (made_log log attrs))
unfolding log_entry lookup string_discrete
made_log-IsLogEntryOf log attrs = record {
  trace_id = (_, refl, optional_hex-IsIdText log.trace_id);
  span_id = (_, refl, optional_hex-IsIdText log.span_id);
  time_ns = refl;
  severity_number = refl;
  severity_text = refl;
  body = (_, refl, body_text-IsBodyText log.body);
  run_id = refl;
  job_id = refl;
  event_name = refl;
  attributes = refl;
}

key_of : String → Option LookupKey
key_of key =
    if key == "trace_id"
    then some by_trace_id
    else if key == "run_id"
    then some by_run_id
    else if key == "job_id"
    then some by_job_id
    else none

key_of-key_text : (k : LookupKey) → key_of (key_text k) ≡ some k
unfolding key_of string_discrete
key_of-key_text by_trace_id = refl
key_of-key_text by_run_id = refl
key_of-key_text by_job_id = refl

key_text-injective : (k l : LookupKey) → key_text k ≡ key_text l → k ≡ l
key_text-injective k l h =
    let same : some k ≡ some l = sym (key_of-key_text k) ∙ ap key_of h ∙ key_of-key_text l in cc

made_log-made :
    (lower : Char → Char) (redactor : Option Redactor) (resource : Option Resource)
    (scope : Option Scope) (log : LogRecord)
    → let attrs = merged_attrs lower redactor resource scope log.attributes in
      (log_row lower redactor resource scope log ≡ ok (made_log log attrs))
      ⊎ ((e : Error) × (log_row lower redactor resource scope log ≡ err e))
unfolding log_row marshal extract_metadata
made_log-made lower redactor resource scope log =
    let attrs = merged_attrs lower redactor resource scope log.attributes in
    elim (Bool-cases (is_encodable (object attrs))) [
      | inl good ↦ inl (rw (good, log_row, marshal) refl)
      | inr bad ↦
          inr (
            wrap "failed to marshal attributes: " unsupported_value,
            rw (bad, log_row, marshal) refl,
          )
    ]

log_column-made_log :
    (k : LookupKey) (log : LogRecord) (attrs : Fields)
    → log_column k (made_log log attrs) ≡ key_value k log attrs
log_column-made_log by_trace_id log attrs = refl
log_column-made_log by_run_id log attrs = refl
log_column-made_log by_job_id log attrs = refl

module _ (E : Engine) (law : IsLawful E) (lower : Char → Char) (s : Store E)
    (resource : Option Resource) (scope : Option Scope) (batch : List LogRecord) where
  abbrev after : Store E
  after = (insert_logs E lower s batch resource scope).1

  abbrev pub attrs_of : LogRecord → Fields
  attrs_of log = merged_attrs lower s.redactor resource scope log.attributes

  log_stored :
      (log : LogRecord)
      → (insert_logs E lower s batch resource scope).0 ≡ ok tt
      → Mem log batch
      → Mem (made_log log (attrs_of log)) (E.tables after.db).log_rows
  log_stored log done m =
      let (rows, all_made, _, stored) =
        rw done at (insert_logs-IsStored E law lower s resource scope batch) in
      let among = Mem-map (log_row lower s.redactor resource scope) log batch m in
      elim (made_log-made lower s.redactor resource scope log) [
        | inl makes ↦ rw stored (
            mem-append_right (E.tables s.db).log_rows
              (Mem-made _ rows all_made _ (made_log log (attrs_of log)) makes among))
        | inr (e, fails) ↦ absurd (not-made _ rows all_made _ e fails among)
      ]

  -- On a lawful engine: Once InsertLogs has returned nil, QueryByKey at the trace, run or job id
  -- that a log record of the batch has, if it returns, and if at most as many logs with that id are
  -- stored as the limit allows, returns a log for that record, with its ids, its time and severity,
  -- the text of its body, which is empty for a Boolean, a number, an array or a map, its event name,
  -- and its merged and redacted attributes.
  pub query_by_key-insert_logs :
      (k : LookupKey) (log : LogRecord) (limit : ℤ) (span_entries log_entries : List Fields)
      → (insert_logs E lower s batch resource scope).0 ≡ ok tt
      → Mem log batch
      → query_by_key E after (key_text k) (key_value k log (attrs_of log)) limit
        ≡ ok (span_entries, log_entries)
      → length (
          keep (λ r. log_column k r == key_value k log (attrs_of log)) (E.tables after.db).log_rows)
        ≤ effective_limit limit
      → (entry : Fields) × Mem entry log_entries × IsLogEntryOf log (attrs_of log) entry
  query_by_key-insert_logs k log limit span_entries log_entries done m found few =
      let row = made_log log (attrs_of log) in
      let (l, same, _, p) = query_by_key-Promised E law after _ _ limit _ log_entries found in
      let own : (log_column k row == key_value k log (attrs_of log)) ≡ true =
        rw (log_column-made_log k log (attrs_of log)) (ground arith) in
      (
        log_entry row,
        Promised-Mem log_entry _ _ _ _ log_entries row (rw (← key_text-injective k l same) at p)
            (log_stored log done m) own few,
        made_log-IsLogEntryOf log (attrs_of log),
      )
