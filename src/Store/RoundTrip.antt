-- ===== src/Store/RoundTrip.antt =====
-- Spans of internal/store/store.go, from InsertSpans to GetTrace.
use mathlib.Core.List.{Mem, mem-append_right}
use otelstore.Base.{
  Char, ◌≡◌, refl, ◌≤◌, true, false, Bool-cases, inl, inr, Option, none, some, List, [], ◌∷◌, ℕ,
  ◌≢◌, ◌⊎◌, sym, ◌∙◌, ok-injective, map, keep, length, ok, err, Error, wrap, ◌==◌, string_discrete,
  arith,
}
use otelstore.Base.Int.{pos}
use otelstore.Value.{Fields, string, int, object, lookup, Resource, Scope}
use otelstore.Value.Json.{unsupported_value, marshal, is_encodable, decoded_fields}
use otelstore.Redact.{Redactor}
use otelstore.Sql.{Engine, IsLawful}
use otelstore.Sql.Rows.{SpanRow, document}
use otelstore.Store.Records.{
  Status, Span, span_row, merged_attrs, extract_metadata, string_or_blank, optional_hex,
  status_message, events_column,
}
use otelstore.Store.Records
use otelstore.Store.Records.Hex.{hex_encode}
use otelstore.Store.Inserts.{Store, insert_spans}
use otelstore.Store.Batches.{insert_spans-IsStored}
use otelstore.Store.Queries.{span_entry, get_trace}
use otelstore.Store.Answers.{get_trace-Promised}
use otelstore.Store.Found.{Mem-map, Mem-made, not-made, Promised-Mem}

-- what the entry of a row that a span was made into says of it
pub record IsEntryOf (lower : Char → Char) (redactor : Option Redactor) (resource : Option Resource)
    (scope : Option Scope) (span : Span) (entry : Fields) : Type 0 where
  pub trace_id : lookup "trace_id" entry ≡ some (string (hex_encode span.trace_id))
  pub span_id : lookup "span_id" entry ≡ some (string (hex_encode span.span_id))
  pub name : lookup "name" entry ≡ some (string span.name)
  pub start_ns : lookup "start_ns" entry ≡ some (int (pos span.start_time_unix_nano))
  pub end_ns : lookup "end_ns" entry ≡ some (int (pos span.end_time_unix_nano))
  -- a parent id that is not empty, and else the empty text
  pub parent_span_id :
      ((span.parent_span_id ≡ []) × (lookup "parent_span_id" entry ≡ some (string "")))
      ⊎ ((span.parent_span_id ≢ [])
          × (lookup "parent_span_id" entry ≡ some (string (hex_encode span.parent_span_id))))
  pub kind : lookup "kind" entry ≡ some (int span.kind)
  -- the code and the message of the status, if the span has one, and else 0 and the empty text
  pub status :
      ((span.status ≡ none)
        × (lookup "status_code" entry ≡ some (int (pos 0)))
        × (lookup "status_message" entry ≡ some (string "")))
      ⊎ ((st : Status) × (span.status ≡ some st)
          × (lookup "status_code" entry ≡ some (int st.code))
          × (lookup "status_message" entry ≡ some (string st.message)))
  -- the merged attributes, as JSON brings them back
  pub attributes :
      lookup "attributes" entry
      ≡ some (object (decoded_fields (merged_attrs lower redactor resource scope span.attributes)))
  pub run_id :
      lookup "run_id" entry
      ≡ some (
          string (
            string_or_blank
              (lookup "run_id" (merged_attrs lower redactor resource scope span.attributes))))
  pub job_id :
      lookup "job_id" entry
      ≡ some (
          string (
            string_or_blank
              (lookup "job_id" (merged_attrs lower redactor resource scope span.attributes))))

module _ (lower : Char → Char) (redactor : Option Redactor) (resource : Option Resource)
    (scope : Option Scope) (span : Span) where
  abbrev pub attrs : Fields
  attrs = merged_attrs lower redactor resource scope span.attributes

  abbrev pub made_row : SpanRow
  made_row = record {
    trace_id = hex_encode span.trace_id;
    span_id = hex_encode span.span_id;
    parent_span_id = optional_hex span.parent_span_id;
    name = span.name;
    kind = span.kind;
    start_ns = span.start_time_unix_nano;
    end_ns = span.end_time_unix_nano;
    status_code = Records.status_code span.status;
    status_message = status_message span.status;
    run_id = string_or_blank (lookup "run_id" attrs);
    job_id = string_or_blank (lookup "job_id" attrs);
    attributes = document (object attrs);
    events = events_column lower redactor span.events;
  }

  parent_cases :
      (parent : List ℕ)
      → span.parent_span_id ≡ parent
      → ((span.parent_span_id ≡ [])
          × (lookup "parent_span_id" (span_entry made_row) ≡ some (string "")))
        ⊎ ((span.parent_span_id ≢ [])
            × (lookup "parent_span_id" (span_entry made_row)
                ≡ some (string (hex_encode span.parent_span_id))))
  unfolding span_entry lookup string_discrete
  parent_cases [] h = inl (h, rw h refl)
  parent_cases (b ∷ bs) h = inr ((λ k. cc), rw h refl)

  status_cases :
      (status : Option Status)
      → span.status ≡ status
      → ((span.status ≡ none)
          × (lookup "status_code" (span_entry made_row) ≡ some (int (pos 0)))
          × (lookup "status_message" (span_entry made_row) ≡ some (string "")))
        ⊎ ((st : Status) × (span.status ≡ some st)
            × (lookup "status_code" (span_entry made_row) ≡ some (int st.code))
            × (lookup "status_message" (span_entry made_row) ≡ some (string st.message)))
  unfolding span_entry lookup string_discrete
  status_cases none h = inl (h, rw h refl, rw h refl)
  status_cases (some st) h = inr (st, h, rw h refl, rw h refl)

  made_row-IsEntryOf : IsEntryOf lower redactor resource scope span (span_entry made_row)
  unfolding span_entry lookup string_discrete
  made_row-IsEntryOf = record {
    trace_id = refl;
    span_id = refl;
    name = refl;
    start_ns = refl;
    end_ns = refl;
    parent_span_id = parent_cases span.parent_span_id refl;
    kind = refl;
    status = status_cases span.status refl;
    attributes = refl;
    run_id = refl;
    job_id = refl;
  }

  pub makes_row :
      is_encodable (object attrs) ≡ true → span_row lower redactor resource scope span ≡ ok made_row
  unfolding span_row marshal extract_metadata
  makes_row h = rw (h, span_row, marshal) refl

  pub makes_none :
      is_encodable (object attrs) ≡ false
      → (e : Error) × (span_row lower redactor resource scope span ≡ err e)
  unfolding span_row marshal
  makes_none h =
      (wrap "failed to marshal attributes: " unsupported_value, rw (h, span_row, marshal) refl)

  pub made_row_unique :
      (row : SpanRow) → span_row lower redactor resource scope span ≡ ok row → row ≡ made_row
  made_row_unique row h = elim (Bool-cases (is_encodable (object attrs))) [
    | inl good ↦ ok-injective _ _ (sym h ∙ makes_row good)
    | inr bad ↦ let (e, fails) = makes_none bad in cc
  ]

  -- what is among rows that all were made
  pub made_row-mem :
      (rows : List SpanRow)
      → Mem (span_row lower redactor resource scope span) (map ok rows)
      → Mem made_row rows
  made_row-mem rows among = elim (Bool-cases (is_encodable (object attrs))) [
    | inl good ↦ Mem-made (map ok rows) rows refl _ made_row (makes_row good) among
    | inr bad ↦
        let (e, fails) = makes_none bad in absurd (not-made (map ok rows) rows refl _ e fails among)
  ]

  -- GetTrace at the trace id of a stored span, if it returns spans, and if at most 10000 spans of
  -- that trace are stored, returns one for that span.
  pub made_row-returned :
      (E : Engine) (law : IsLawful E) (s : Store E) (es : List Fields)
      → Mem made_row (E.tables s.db).span_rows
      → get_trace E s (hex_encode span.trace_id) ≡ ok es
      → length (keep (λ r. r.trace_id == hex_encode span.trace_id) (E.tables s.db).span_rows)
        ≤ 10000
      → (entry : Fields) × Mem entry es × IsEntryOf lower redactor resource scope span entry
  made_row-returned E law s es kept found few =
      let p = get_trace-Promised E law s (hex_encode span.trace_id) es found in
      let own : (made_row.trace_id == hex_encode span.trace_id) ≡ true = ground arith in
      (
        span_entry made_row,
        Promised-Mem span_entry _ _ 10000 _ es made_row p kept own few,
        made_row-IsEntryOf,
      )

module _ (E : Engine) (law : IsLawful E) (lower : Char → Char) (s : Store E)
    (resource : Option Resource) (scope : Option Scope) (batch : List Span) where
  abbrev after : Store E
  after = (insert_spans E lower s batch resource scope).1

  -- the row of a span of the batch is stored
  pub row_stored :
      (span : Span)
      → (insert_spans E lower s batch resource scope).0 ≡ ok tt
      → Mem span batch
      → Mem (made_row lower s.redactor resource scope span) (E.tables after.db).span_rows
  row_stored span done m =
      let (rows, all_made, _, stored) =
        rw done at (insert_spans-IsStored E law lower s resource scope batch) in
      let among = Mem-map (span_row lower s.redactor resource scope) span batch m in
      rw stored (
        mem-append_right (E.tables s.db).span_rows
          (made_row-mem lower s.redactor resource scope span rows (rw all_made at among)))

  -- On a lawful engine: once InsertSpans has returned nil, GetTrace at the trace id of a span of
  -- the batch, if it returns spans, and if at most 10000 spans of that trace are stored, returns
  -- one for that span, with its trace, span and parent ids, its name, kind and times, the code and
  -- the message of its status, its run and job ids, and its merged and redacted attributes as JSON
  -- brings them back.
  pub get_trace-insert_spans :
      (span : Span) (es : List Fields)
      → (insert_spans E lower s batch resource scope).0 ≡ ok tt
      → Mem span batch
      → get_trace E after (hex_encode span.trace_id) ≡ ok es
      → length (keep (λ r. r.trace_id == hex_encode span.trace_id) (E.tables after.db).span_rows)
        ≤ 10000
      → (entry : Fields) × Mem entry es × IsEntryOf lower s.redactor resource scope span entry
  get_trace-insert_spans span es done m found few =
      made_row-returned lower s.redactor resource scope span E law after es (row_stored span done m)
        found few
