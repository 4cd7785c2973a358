-- ===== src/Tests/Serving.antt =====
-- REST requests and MCP tools over a store with rows.
use text.Mathlib.TextEquality.{eq_iff}
use otelstore.Query.Listing.{Answers}
use otelstore.Base.{
  Option, ℕ, String, ◌≡◌, ◌≢◌, refl, none, List, [], ◌∷◌, map, keep, ok, Error, ◌==◌,
  string_discrete, if◌then◌else◌, ◌⊎◌,
}
use otelstore.Value.{Fields, lookup}
use otelstore.Http.{Request, Response, http_error}
use otelstore.Sql.Memory.{memory, memory-IsLawful}
use otelstore.Store.Queries.{span_entry, log_entry, error_spans}
use otelstore.Store.Answers.{by_job_id, span_column, log_column}
use otelstore.Store.Promised.{Promised}
use otelstore.Query.{encode, both_result, handle_query}
use otelstore.Query.Serving.{IsLimitOf, HasOnly, handle_query-Promised}
use otelstore.Mcp.{
  QueryJobOutput, QueryRunOutput, GetTraceOutput, query_job_handler, query_run_handler,
  get_trace_handler,
}
use otelstore.Mcp.Tools.{is_failed, query_job_handler-Promised, lookup_handlers-Promised}
use otelstore.Tests.Answering.{answering}
use otelstore.Tests.Fixtures.{old_row, new_row, event_row, filled_tables, filled_store}

params : String → String
params name = if name == "job_id" then "j1" else if name == "limit" then "1" else ""

abbrev get_job : Request
get_job = record {
  method = "GET";
  path = "/v1/query";
  remote_addr = "";
  header = λ name. "";
  query = params;
  body = [];
  body_error = none;
}

job_given : params "job_id" ≢ ""
unfolding params string_discrete
job_given h = let t = (eq_iff "j1" "").1 h in cc

job_only : HasOnly by_job_id get_job
unfolding params string_discrete
job_only = (job_given, refl, refl)

handle_query-Promised_example :
    ((e : Error) × (handle_query memory filled_store get_job ≡ http_error e 500))
    ⊎ ((n : ℕ) × (ss : List Fields) × (ls : List Fields) × IsLimitOf (get_job.query "limit") n
        × (handle_query memory filled_store get_job ≡ encode (both_result (ss, ls)))
        × Promised span_entry
            (λ x. span_column by_job_id x == params "job_id")
            (λ x. x.start_ns)
            n
            filled_tables.span_rows
            ss
        × Promised log_entry
            (λ x. log_column by_job_id x == params "job_id")
            (λ x. x.time_ns)
            n
            filled_tables.log_rows
            ls)
handle_query-Promised_example =
    handle_query-Promised memory filled_store get_job memory-IsLawful by_job_id refl job_only

abbrev job_output : QueryJobOutput
job_output = record {
  spans = map span_entry (old_row ∷ new_row ∷ []);
  logs = map log_entry (event_row ∷ []);
  errors = map span_entry (old_row ∷ []);
}

job_found : query_job_handler memory filled_store "j1" ≡ ok job_output
unfolding answering query_job_handler error_spans span_entry lookup
job_found = refl

query_job_handler-Promised_example :
    (◌≢◌ {A = String} "j1" "")
    × ((found : Promised span_entry
          (λ x. x.job_id == "j1")
          (λ x. x.start_ns)
          1000
          filled_tables.span_rows
          job_output.spans)
        × (job_output.errors ≡ map span_entry (keep is_failed found.rows)))
    × Promised log_entry
        (λ x. x.job_id == "j1")
        (λ x. x.time_ns)
        1000
        filled_tables.log_rows
        job_output.logs
query_job_handler-Promised_example =
    query_job_handler-Promised memory memory-IsLawful filled_store "j1" job_output job_found

lookup_handlers-Promised_example :
    ((run_id : String) (out : QueryRunOutput)
      → query_run_handler memory filled_store run_id ≡ ok out
      → (run_id ≢ "")
        × Promised span_entry
            (λ x. x.run_id == run_id)
            (λ x. x.start_ns)
            1000
            filled_tables.span_rows
            out.spans
        × Promised log_entry
            (λ x. x.run_id == run_id)
            (λ x. x.time_ns)
            1000
            filled_tables.log_rows
            out.logs)
    × ((trace_id : String) (out : GetTraceOutput)
        → get_trace_handler memory filled_store trace_id ≡ ok out
        → (trace_id ≢ "")
          × (out.trace_id ≡ trace_id)
          × Promised span_entry
              (λ x. x.trace_id == trace_id)
              (λ x. x.start_ns)
              10000
              filled_tables.span_rows
              out.spans)
lookup_handlers-Promised_example = lookup_handlers-Promised memory memory-IsLawful filled_store

abbrev get_trace_ab01 : Request
get_trace_ab01 = record get_job { path = "/v1/traces/ab01" }

abbrev no_redirect : String → Option Response
no_redirect path = none
