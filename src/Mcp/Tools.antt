-- ===== src/Mcp/Tools.antt =====
-- What the tools of internal/mcpserver/mcpserver.go return.
use mathlib.Core.Path.{fun_ext}
use otelstore.Base.{
  String, ◌≡◌, ◌>>=◌, ◌≢◌, refl, sym, ap, ◌∙◌, Bool, List, [], ◌∷◌, map, keep, ok, >>=-eq-ok,
  ok-injective, ◌==◌, string_discrete, arith,
}
use otelstore.Base.Int.{pos, eq_int}
use otelstore.Value.{lookup}
use otelstore.Sql.{Engine, IsLawful}
use otelstore.Sql.Rows.{SpanRow}
use otelstore.Store.Inserts.{Store}
use otelstore.Store.Queries.{
  span_entry, log_entry, is_error_entry, error_spans, query_by_key, get_trace,
}
use otelstore.Store.Answers.{by_job_id, by_run_id, get_trace-Promised}
use otelstore.Store.Promised.{Promised}
use otelstore.Store.Lookups.{lookup-Promised}
use otelstore.Mcp.{
  QueryJobOutput, QueryRunOutput, GetTraceOutput, query_job_handler, query_run_handler,
  get_trace_handler,
}

-- the status code of a span that failed
abbrev pub is_failed : SpanRow → Bool
is_failed r = eq_int r.status_code (pos 2)

is_error_entry_lem : (r : SpanRow) → is_error_entry (span_entry r) ≡ is_failed r
unfolding is_error_entry span_entry lookup string_discrete
is_error_entry_lem r = refl

keep-map :
    {A B : Type 0} (p : B → Bool) (f : A → B) (xs : List A)
    → keep p (map f xs) ≡ map f (keep (λ x. p (f x)) xs)
keep-map p f [] = refl
keep-map p f (x ∷ xs) = ground (arith, keep-map p f xs)

error_spans-map :
    (rows : List SpanRow) → error_spans (map span_entry rows) ≡ map span_entry (keep is_failed rows)
unfolding error_spans
error_spans-map rows =
    keep-map is_error_entry span_entry rows
    ∙ ap (λ t. map span_entry (keep t rows)) (fun_ext is_error_entry_lem)

module _ (E : Engine) (law : IsLawful E) (s : Store E) where
  query_job_ok :
      (job_id : String) (out : QueryJobOutput)
      → query_job_handler E s job_id ≡ ok out
      → (job_id ≢ "")
        × (query_by_key E s "job_id" job_id (pos 1000) ≡ ok (out.spans, out.logs))
        × (out.errors ≡ error_spans out.spans)
  unfolding query_job_handler
  query_job_ok job_id out h = elim (string_discrete job_id "") [
    | yes e ↦ absurd (ground arith)
    | no n ↦
        let g : (query_by_key E s "job_id" job_id (pos 1000) >>= λ found.
        ok (record { spans = found.0; logs = found.1; errors = error_spans found.0 }))
            ≡ ok out =
          ground arith in
        let (found, read, made) = >>=-eq-ok _ _ g in
        let same = ok-injective _ _ made in
        (
          n,
          read ∙ ap (λ (o : QueryJobOutput). ok (o.spans, o.logs)) same,
          sym (ap (λ (o : QueryJobOutput). o.errors) same)
              ∙ ap (λ (o : QueryJobOutput). error_spans o.spans) same,
        )
  ]

  -- On a lawful engine: Where query_job returns, the job id is not empty; the spans and logs are
  -- the entries of stored ones of the job, in the order of their times, all of them or the oldest 1000;
  -- and the errors are those of the returned spans whose status code is 2, in the same order.
  pub query_job_handler-Promised :
      (job_id : String) (out : QueryJobOutput)
      → query_job_handler E s job_id ≡ ok out
      → (job_id ≢ "")
        × ((found : Promised span_entry
              (λ x. x.job_id == job_id)
              (λ x. x.start_ns)
              1000
              (E.tables s.db).span_rows
              out.spans)
            × (out.errors ≡ map span_entry (keep is_failed found.rows)))
        × Promised log_entry
            (λ x. x.job_id == job_id)
            (λ x. x.time_ns)
            1000
            (E.tables s.db).log_rows
            out.logs
  query_job_handler-Promised job_id out h =
      let (named, found, errors) = query_job_ok job_id out h in
      let (a, b) =
        lookup-Promised E law s by_job_id job_id (pos 1000) 1000 out.spans out.logs (omega arith)
          found in
      (named, (a, errors ∙ ap error_spans a.entries_of ∙ error_spans-map a.rows), b)

  query_run_ok :
      (run_id : String) (out : QueryRunOutput)
      → query_run_handler E s run_id ≡ ok out
      → (run_id ≢ "") × (query_by_key E s "run_id" run_id (pos 1000) ≡ ok (out.spans, out.logs))
  unfolding query_run_handler
  query_run_ok run_id out h = elim (string_discrete run_id "") [
    | yes e ↦ absurd (ground arith)
    | no n ↦
        let g : (query_by_key E s "run_id" run_id (pos 1000) >>= λ found.
        ok (record { spans = found.0; logs = found.1 }))
            ≡ ok out =
          ground arith in
        let (found, read, made) = >>=-eq-ok _ _ g in
        (n, read ∙ ap (λ (o : QueryRunOutput). ok (o.spans, o.logs)) (ok-injective _ _ made))
  ]

  get_trace_ok :
      (trace_id : String) (out : GetTraceOutput)
      → get_trace_handler E s trace_id ≡ ok out
      → (trace_id ≢ "") × (get_trace E s trace_id ≡ ok out.spans) × (out.trace_id ≡ trace_id)
  unfolding get_trace_handler
  get_trace_ok trace_id out h = elim (string_discrete trace_id "") [
    | yes e ↦ absurd (ground arith)
    | no n ↦
        let g : (get_trace E s trace_id >>= λ found.
        ok (record { trace_id = trace_id; spans = found }))
            ≡ ok out =
          ground arith in
        let (found, read, made) = >>=-eq-ok _ _ g in
        let same = ok-injective _ _ made in
        (
          n,
          read ∙ ap (λ (o : GetTraceOutput). ok o.spans) same,
          sym (ap (λ (o : GetTraceOutput). o.trace_id) same),
        )
  ]

  -- On a lawful engine: Where query_run or get_trace returns, the id is not empty, and the result
  -- is the entries of stored spans, and for a run of logs, with that id, in the order of their
  -- times: all of them, or the oldest 1000 of a run's and 10000 of a trace's.
  pub lookup_handlers-Promised :
      ((run_id : String) (out : QueryRunOutput)
        → query_run_handler E s run_id ≡ ok out
        → (run_id ≢ "")
          × Promised span_entry
              (λ x. x.run_id == run_id)
              (λ x. x.start_ns)
              1000
              (E.tables s.db).span_rows
              out.spans
          × Promised log_entry
              (λ x. x.run_id == run_id)
              (λ x. x.time_ns)
              1000
              (E.tables s.db).log_rows
              out.logs)
      × ((trace_id : String) (out : GetTraceOutput)
          → get_trace_handler E s trace_id ≡ ok out
          → (trace_id ≢ "")
            × (out.trace_id ≡ trace_id)
            × Promised span_entry
                (λ x. x.trace_id == trace_id)
                (λ x. x.start_ns)
                10000
                (E.tables s.db).span_rows
                out.spans)
  lookup_handlers-Promised = (
    (λ run_id out h.
        let (named, found) = query_run_ok run_id out h in
        let (a, b) =
          lookup-Promised E law s by_run_id run_id (pos 1000) 1000 out.spans out.logs (omega arith)
            found in
        (named, a, b)),
    (λ trace_id out h.
        let (named, found, echoed) = get_trace_ok trace_id out h in
        (named, echoed, get_trace-Promised E law s trace_id out.spans found)),
  )
