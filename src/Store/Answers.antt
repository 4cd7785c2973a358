-- ===== src/Store/Answers.antt =====
-- What the queries of internal/store/store.go return.
use otelstore.Base.{
  ℕ, zero, suc, min, String, ◌≡◌, refl, ap, ◌∙◌, Bool, true, ◌&&◌, List, ok, >>=-eq-ok,
  or_wrap-eq-ok, ok-injective, ◌≢◌, ◌↔◌, ok-injective, ◌≢◌, ◌↔◌, arith, ◌==◌, string_discrete,
}
use otelstore.Base.Int.{ℤ, pos, negsuc, lt_int, le_int}
use otelstore.Value.{Fields}
use otelstore.Sql.{fetched, Engine, IsLawful}
use otelstore.Sql.Rows.{SpanRow, LogRow, MetricRow, spans, logs, metrics}
use otelstore.Store.Inserts.{Store}
use otelstore.Store.Queries.{
  span_entry, log_entry, metric_entry, clamp_limit, select_spans, select_logs, select_metrics,
  find_spans, find_logs, find_both, query_by_key, get_trace, query_metrics, query_logs,
  find_metrics, event_condition, severity_condition,
}
use otelstore.Store.Promised.{Promised, IsAnswer-Promised, scan-eq-ok}

-- The limit that a query goes by: 1000 unless a positive one is asked for, and 10000 at most.
abbrev pub effective_limit : ℤ → ℕ
effective_limit (pos zero) = 1000
effective_limit (pos (suc n)) = min (suc n) 10000
effective_limit (negsuc n) = 1000

clamp_limit_lem : (limit : ℤ) → clamp_limit limit ≡ pos (effective_limit limit)
unfolding clamp_limit
clamp_limit_lem (pos zero) = refl
clamp_limit_lem (pos (suc n)) = ground arith
clamp_limit_lem (negsuc n) = refl

-- The columns that a lookup goes by.
pub data LookupKey : Type 0 where
  by_trace_id by_run_id by_job_id : LookupKey

abbrev pub key_text : LookupKey → String
key_text by_trace_id = "trace_id"
key_text by_run_id = "run_id"
key_text by_job_id = "job_id"

abbrev pub span_column : LookupKey → SpanRow → String
span_column by_trace_id r = r.trace_id
span_column by_run_id r = r.run_id
span_column by_job_id r = r.job_id

abbrev pub log_column : LookupKey → LogRow → String
log_column by_trace_id r = r.trace_id
log_column by_run_id r = r.run_id
log_column by_job_id r = r.job_id

-- what QueryLogs asks of a row
abbrev pub IsWanted : String → ℤ → LogRow → Type 0
IsWanted event_name min_severity r =
    (event_name ≢ "" → r.event_name ≡ event_name)
    × (lt_int (pos 0) min_severity ≡ true → le_int min_severity r.severity_number ≡ true)

module _ (E : Engine) (law : IsLawful E) (s : Store E) where
  find_spans-Promised :
      (test : SpanRow → Bool) (n : ℕ) (failed : String) (es : List Fields)
      → find_spans E s test (pos n) failed ≡ ok es
      → Promised span_entry test (λ r. r.start_ns) n (E.tables s.db).span_rows es
  unfolding find_spans
  find_spans-Promised test n failed es h =
      let (f, selected, scanned) = >>=-eq-ok _ _ h in
      let (rows, is_rows, e) = scan-eq-ok span_entry f es scanned in
      let read : E.select spans (select_spans test (pos n)) s.db ≡ ok (fetched rows) =
        or_wrap-eq-ok failed _ selected ∙ ap ok is_rows in
      rw e (IsAnswer-Promised span_entry test _ n _ rows (law.select_ok spans _ s.db rows read))

  find_logs-Promised :
      (test : LogRow → Bool) (n : ℕ) (es : List Fields)
      → find_logs E s test (pos n) ≡ ok es
      → Promised log_entry test (λ r. r.time_ns) n (E.tables s.db).log_rows es
  unfolding find_logs
  find_logs-Promised test n es h =
      let (f, selected, scanned) = >>=-eq-ok _ _ h in
      let (rows, is_rows, e) = scan-eq-ok log_entry f es scanned in
      let read : E.select logs (select_logs test (pos n)) s.db ≡ ok (fetched rows) =
        or_wrap-eq-ok _ _ selected ∙ ap ok is_rows in
      rw e (IsAnswer-Promised log_entry test _ n _ rows (law.select_ok logs _ s.db rows read))

  find_metrics-Promised :
      (test : MetricRow → Bool) (n : ℕ) (es : List Fields)
      → find_metrics E s test (pos n) ≡ ok es
      → Promised metric_entry test (λ r. r.time_ns) n (E.tables s.db).metric_rows es
  unfolding find_metrics
  find_metrics-Promised test n es h =
      let (f, selected, scanned) = >>=-eq-ok _ _ h in
      let (rows, is_rows, e) = scan-eq-ok metric_entry f es scanned in
      let read : E.select metrics (select_metrics test (pos n)) s.db ≡ ok (fetched rows) =
        or_wrap-eq-ok _ _ selected ∙ ap ok is_rows in
      rw e (IsAnswer-Promised metric_entry test _ n _ rows (law.select_ok metrics _ s.db rows read))

  -- On a lawful engine: Where GetTrace returns spans, they are the entries of stored spans with
  -- the trace id, in the order of their start times: of all of them, each as often as it is stored,
  -- unless there are more than 10000, and then of the oldest 10000.
  pub get_trace-Promised :
      (trace_id : String) (es : List Fields)
      → get_trace E s trace_id ≡ ok es
      → Promised span_entry
          (λ r. r.trace_id == trace_id)
          (λ r. r.start_ns)
          10000
          (E.tables s.db).span_rows
          es
  unfolding get_trace
  get_trace-Promised trace_id es h = find_spans-Promised _ 10000 _ es h

  -- On a lawful engine: Where QueryMetrics returns metrics, they are the entries of stored ones
  -- with the name, in the order of their times: of all of them unless there are more than the
  -- effective limit, and then of the oldest, as many as that.
  pub query_metrics-Promised :
      (name : String) (limit : ℤ) (es : List Fields)
      → query_metrics E s name limit ≡ ok es
      → Promised metric_entry
          (λ r. r.name == name)
          (λ r. r.time_ns)
          (effective_limit limit)
          (E.tables s.db).metric_rows
          es
  unfolding query_metrics
  query_metrics-Promised name limit es h =
      find_metrics-Promised _ (effective_limit limit) es (rw clamp_limit_lem at h)

  -- On a lawful engine: Where QueryLogs returns logs, there is a test that holds of exactly the
  -- rows with the event name, if one is given, and with at least the severity, if the floor is
  -- positive; and the logs are the entries of stored ones that pass it, in the order of their times: of
  -- all of them, each as often as it is stored, unless there are more than the effective limit, and
  -- then of the oldest, as many as that.
  pub query_logs-Promised :
      (event_name : String) (min_severity limit : ℤ) (es : List Fields)
      → query_logs E s event_name min_severity limit ≡ ok es
      → (test : LogRow → Bool) × ((r : LogRow)
          → (test r ≡ true) ↔ IsWanted event_name min_severity r)
        × Promised log_entry test
            (λ r. r.time_ns)
            (effective_limit limit)
            (E.tables s.db).log_rows
            es
  unfolding query_logs
  query_logs-Promised event_name min_severity limit es h = (
    λ r. event_condition event_name r && severity_condition min_severity r,
    λ r. ground arith,
    find_logs-Promised _ (effective_limit limit) es (rw clamp_limit_lem at h),
  )

  find_both-Promised :
      (span_test : SpanRow → Bool) (log_test : LogRow → Bool) (n : ℕ) (ss ls : List Fields)
      → find_both E s span_test log_test (pos n) ≡ ok (ss, ls)
      → Promised span_entry span_test (λ r. r.start_ns) n (E.tables s.db).span_rows ss
        × Promised log_entry log_test (λ r. r.time_ns) n (E.tables s.db).log_rows ls
  unfolding find_both
  find_both-Promised span_test log_test n ss ls h =
      let (found_spans, spans_ok, rest) = >>=-eq-ok _ _ h in
      let (found_logs, logs_ok, pair) = >>=-eq-ok _ _ rest in
      let same : (found_spans, found_logs) ≡ (ss, ls) = ok-injective _ _ pair in
      (
        rw (← ap (λ p. p.0) same) (find_spans-Promised span_test n _ found_spans spans_ok),
        rw (← ap (λ p. p.1) same) (find_logs-Promised log_test n found_logs logs_ok),
      )

  -- On a lawful engine: Where QueryByKey returns spans and logs, the key is trace_id, run_id or
  -- job_id, and they are the entries of stored spans and logs whose column of that name has the
  -- value, each in the order of their times: of all of them, each as often as it is stored, unless
  -- there are more than the effective limit, and then of the oldest, as many as that.
  pub query_by_key-Promised :
      (key value : String) (limit : ℤ) (ss ls : List Fields)
      → query_by_key E s key value limit ≡ ok (ss, ls)
      → (k : LookupKey) × (key ≡ key_text k)
        × Promised span_entry
            (λ r. span_column k r == value)
            (λ r. r.start_ns)
            (effective_limit limit)
            (E.tables s.db).span_rows
            ss
        × Promised log_entry
            (λ r. log_column k r == value)
            (λ r. r.time_ns)
            (effective_limit limit)
            (E.tables s.db).log_rows
            ls
  unfolding query_by_key
  query_by_key-Promised key value limit ss ls h =
      let g = rw clamp_limit_lem at h in
      let n = effective_limit limit in
      elim (string_discrete key "trace_id") [
        | yes e ↦
            let (a, b) =
              find_both-Promised (λ r. r.trace_id == value) (λ r. r.trace_id == value) n ss ls
                (ground arith) in
            (by_trace_id, e, a, b)
        | no not_trace ↦ elim (string_discrete key "run_id") [
          | yes e ↦
              let (a, b) =
                find_both-Promised (λ r. r.run_id == value) (λ r. r.run_id == value) n ss ls
                  (ground arith) in
              (by_run_id, e, a, b)
          | no not_run ↦ elim (string_discrete key "job_id") [
            | yes e ↦
                let (a, b) =
                  find_both-Promised (λ r. r.job_id == value) (λ r. r.job_id == value) n ss ls
                    (ground arith) in
                (by_job_id, e, a, b)
            | no not_job ↦ absurd (ground arith)
          ]
        ]
      ]
