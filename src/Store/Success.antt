-- ===== src/Store/Success.antt =====
-- When the operations of internal/store/store.go succeed on an engine that runs what it can.
use otelstore.Base.{
  ◌^◌, ◌<◌, All, String, Bool, ◌⊎◌, inl, inr, ◌≢◌, ◌>>=◌, concat, ◌==◌, string_discrete, arith,
  Char, ◌≡◌, refl, ◌↔◌, Error, Option, List, [], ◌∷◌, map, Outcome, ok, err, or_wrap,
}
use otelstore.Value.{Fields, Resource, Scope}
use otelstore.Sql.{Engine, IsLawful, IsReading, IsWriting}
use otelstore.Base.Int.{ℤ}
use otelstore.Sql.Rows.{
  Table, Row, rows_of, SpanRow, LogRow, MetricRow, AreTimesShort, spans, logs, metrics,
}
use otelstore.Store.Records.{Span, span_row}
use otelstore.Store.Inserts.{Store, insert_rows, finish, in_transaction, insert_spans}
use otelstore.Store.Atomicity.{AreFresh, insert_rows_step, pending_after, in_transaction_begun}
use otelstore.Store.Batches.{insert_spans-IsStored}
use otelstore.Store.RoundTrip.{made_row_unique}
use otelstore.Redact.{Redactor}
use otelstore.Store.Queries.{
  span_entry, log_entry, metric_entry, scan, clamp_limit, select_spans, select_logs, select_metrics,
  find_spans, find_logs, find_metrics, find_both, get_trace, query_metrics, query_logs,
  query_by_key,
}
use otelstore.Store.Answers.{LookupKey, by_trace_id, by_run_id, by_job_id, key_text}

abbrev pub HasShortTimes : Span → Type 0
HasShortTimes span = (span.start_time_unix_nano < 2 ^ 63) × (span.end_time_unix_nano < 2 ^ 63)

module _ (E : Engine) (law : IsLawful E) (writing : IsWriting E) where
  insert_rows_succeeds :
      (t : Table) (rows : List (Row t)) (x : E.Tx)
      → AreFresh t (rows_of (E.pending x) t) rows
      → All (AreTimesShort t) rows
      → (insert_rows E t (map ok rows) x).0 ≡ ok tt
  insert_rows_succeeds t [] x h l = unfold insert_rows in refl
  insert_rows_succeeds t (r ∷ rows) x (fresh, later) (short, shorts) =
      let done = writing.inserts t r x short fresh in
      rw (insert_rows_step E law t r (map ok rows) x done) (
        insert_rows_succeeds t rows (E.insert t r x).1
          (rw (pending_after E law t r [] x done) later) shorts)

  finish_succeeds :
      (t : Table) (p : Outcome (Unit {0}) × E.Tx) → p.0 ≡ ok tt → (finish E t p).0 ≡ ok tt
  unfolding finish
  finish_succeeds t (err e, x) h = cc
  finish_succeeds t (ok u, x) h = rw (writing.commits x, or_wrap) refl

  in_transaction_succeeds :
      (t : Table) (rows : List (Row t)) (d : E.Db)
      → AreFresh t (rows_of (E.tables d) t) rows
      → All (AreTimesShort t) rows
      → (in_transaction E t (map ok rows) d).0 ≡ ok tt
  in_transaction_succeeds t rows d h l =
      let (x, begun) = writing.begins d in
      rw (in_transaction_begun E law t (map ok rows) d x begun (writing.prepares t x))
        (finish_succeeds t _ (insert_rows_succeeds t rows x (rw (law.begin_sees d x begun) h) l))

  -- the rows of spans with short times
  made-AreTimesShort :
      (lower : Char → Char) (redactor : Option Redactor) (resource : Option Resource)
      (scope : Option Scope) (batch : List Span) (rows : List SpanRow)
      → map (span_row lower redactor resource scope) batch ≡ map ok rows
      → All HasShortTimes batch
      → All (AreTimesShort spans) rows
  made-AreTimesShort lower redactor resource scope [] [] h l = tt
  made-AreTimesShort lower redactor resource scope [] (r ∷ rows) h l = cc
  made-AreTimesShort lower redactor resource scope (span ∷ batch) [] h l = cc
  made-AreTimesShort lower redactor resource scope (span ∷ batch) (r ∷ rows) h ((a, b), l) =
      let first : span_row lower redactor resource scope span ≡ ok r = cc in
      let others : map (span_row lower redactor resource scope) batch ≡ map ok rows = cc in
      let same = made_row_unique lower redactor resource scope span r first in
      (rw same (a, b), made-AreTimesShort lower redactor resource scope batch rows others l)

  -- On a lawful engine that runs every write but the insert of a row that breaks a constraint or has
  -- a time of 2 ^ 63 or more, and for spans that start and end before 2 ^ 63 ns: InsertSpans returns
  -- nil exactly if each span of the batch gives a row, and no row has the trace id and the span id of
  -- a stored one or of one before it.
  pub insert_spans_succeeds :
      (lower : Char → Char) (s : Store E) (resource : Option Resource) (scope : Option Scope)
      (batch : List Span)
      → All HasShortTimes batch
      → ((insert_spans E lower s batch resource scope).0 ≡ ok tt) ↔ (
          (rows : List SpanRow) × (map (span_row lower s.redactor resource scope) batch
            ≡ map ok rows)
          × AreFresh spans (E.tables s.db).span_rows rows)
  unfolding insert_spans
  insert_spans_succeeds lower s resource scope [] l = ((λ h. ([], refl, tt)), (λ h. refl))
  insert_spans_succeeds lower s resource scope (span ∷ batch) l = (
    (λ h.
        let (rows, made, fresh, _) =
          rw h at (insert_spans-IsStored E law lower s resource scope (span ∷ batch)) in
        (rows, made, fresh)),
    (λ (rows, made, fresh).
        let shorts =
          made-AreTimesShort lower s.redactor resource scope (span ∷ batch) rows made l in
        rw made (in_transaction_succeeds spans rows s.db fresh shorts)),
  )

module _ (E : Engine) (reading : IsReading E) (s : Store E) where
  finds_spans :
      (test : SpanRow → Bool) (limit : ℤ) (failed : String)
      → (es : List Fields) × (find_spans E s test limit failed ≡ ok es)
  unfolding find_spans scan
  finds_spans test limit failed =
      let (rows, read) = reading.selects spans (select_spans test limit) s.db in
      (map span_entry rows, rw (read, or_wrap) refl)

  finds_logs :
      (test : LogRow → Bool) (limit : ℤ) → (es : List Fields) × (find_logs E s test limit ≡ ok es)
  unfolding find_logs scan
  finds_logs test limit =
      let (rows, read) = reading.selects logs (select_logs test limit) s.db in
      (map log_entry rows, rw (read, or_wrap) refl)

  finds_metrics :
      (test : MetricRow → Bool) (limit : ℤ)
      → (es : List Fields) × (find_metrics E s test limit ≡ ok es)
  unfolding find_metrics scan
  finds_metrics test limit =
      let (rows, read) = reading.selects metrics (select_metrics test limit) s.db in
      (map metric_entry rows, rw (read, or_wrap) refl)

  finds_both :
      (span_test : SpanRow → Bool) (log_test : LogRow → Bool) (limit : ℤ)
      → (found : List Fields × List Fields) × (find_both E s span_test log_test limit ≡ ok found)
  unfolding find_both
  finds_both span_test log_test limit =
      let (ss, found_spans) = finds_spans span_test limit "failed to query spans: " in
      let (ls, found_logs) = finds_logs log_test limit in
      ((ss, ls), rw (found_spans, ◌>>=◌, found_logs) refl)

  by_key :
      (key value : String) (limit : ℤ)
      → ((found : List Fields × List Fields) × (query_by_key E s key value limit ≡ ok found))
        ⊎ ((e : Error) × (query_by_key E s key value limit ≡ err e)
            × ((k : LookupKey) → key ≢ key_text k))
  unfolding query_by_key
  by_key key value limit = elim (string_discrete key "trace_id") [
    | yes e ↦
        let (found, h) =
          finds_both (λ r. r.trace_id == value) (λ r. r.trace_id == value) (clamp_limit limit) in
        inl (found, ground (arith, h))
    | no not_trace ↦ elim (string_discrete key "run_id") [
      | yes e ↦
          let (found, h) =
            finds_both (λ r. r.run_id == value) (λ r. r.run_id == value) (clamp_limit limit) in
          inl (found, ground (arith, h))
      | no not_run ↦ elim (string_discrete key "job_id") [
        | yes e ↦
            let (found, h) =
              finds_both (λ r. r.job_id == value) (λ r. r.job_id == value) (clamp_limit limit) in
            inl (found, ground (arith, h))
        | no not_job ↦ inr (
          concat "invalid key: " key,
          ground arith,
          (λ k. elim k as (λ c. key ≢ key_text c) [
            | by_trace_id ↦ not_trace
            | by_run_id ↦ not_run
            | by_job_id ↦ not_job
          ]),
        )
      ]
    ]
  ]

  -- On an engine that runs every query: GetTrace, QueryMetrics and QueryLogs return entries, and
  -- QueryByKey does so too, or returns an error and the key is none of trace_id, run_id and job_id.
  pub queries_succeed :
      ((trace_id : String) → (es : List Fields) × (get_trace E s trace_id ≡ ok es))
      × ((name : String) (limit : ℤ) → (es : List Fields) × (query_metrics E s name limit ≡ ok es))
      × ((event_name : String) (min_severity limit : ℤ)
          → (es : List Fields) × (query_logs E s event_name min_severity limit ≡ ok es))
      × ((key value : String) (limit : ℤ)
          → ((found : List Fields × List Fields) × (query_by_key E s key value limit ≡ ok found))
            ⊎ ((e : Error) × (query_by_key E s key value limit ≡ err e)
                × ((k : LookupKey) → key ≢ key_text k)))
  unfolding get_trace query_metrics query_logs
  queries_succeed = (
    (λ trace_id. finds_spans _ _ _),
    (λ name limit. finds_metrics _ _),
    (λ event_name min_severity limit. finds_logs _ _),
    by_key,
  )
