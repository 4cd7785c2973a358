-- ===== src/Query.antt =====
-- internal/query/query.go: the REST queries and the probes.
pub mod Numbers
pub mod Serving
pub mod Listing
use otelstore.Base.{
  ℕ, ◌+◌, String, Bool, true, false, ◌&&◌, ◌||◌, not, Option, none, some, List, [], ◌∷◌, Outcome,
  ok, err, Error, ◌==◌, cut_prefix, nat_eq, if◌then◌else◌,
}
use otelstore.Base.Int.{ℤ, pos, negsuc, lt_int, le_int}
use otelstore.Value.{
  Value, Values, Fields, string, array, object, no_items, item_then, no_fields, field_then,
}
use otelstore.Value.Json.{marshal}
use otelstore.Http.{Request, Response, Reply, Body, no_body, plain, json, http_error}
use otelstore.Sql.{Engine}
use otelstore.Store.Inserts.{Store}
use otelstore.Store.Queries.{query_by_key, get_trace, query_metrics, query_logs}
use Numbers.{atoi}

abbrev pub items : List Fields → Values
items [] = no_items
items (e ∷ es) = item_then (object e) (items es)

-- a `[]map[string]any` in a result
abbrev pub entries_value : List Fields → Value
entries_value es = array (items es)

-- what `strconv.Atoi` gave, if it is from 1 to 10000
abbrev pub limit_or_default : Option ℤ → ℤ
limit_or_default none = pos 1000
limit_or_default (some l) = if lt_int (pos 0) l && le_int l (pos 10000) then l else pos 1000

-- The limit of a request: 1000, unless there is a number from 1 to 10000.
unfoldable pub parse_limit : String → ℤ
unfolding atoi
parse_limit limit_str = if limit_str == "" then pos 1000 else limit_or_default (atoi limit_str)

-- the floor of the severity: 0, unless there is a positive number
unfoldable pub parse_severity : String → ℤ
unfolding atoi
parse_severity sev_str =
    if sev_str == ""
    then pos 0
    else elim (atoi sev_str) [ none ↦ pos 0 | some sev ↦ if lt_int (pos 0) sev then sev else pos 0 ]

-- The status is 200 once the encoder has written; where it fails, nothing is written, and the
-- status is 200 with no body.
unfoldable pub encode : Value → Response
unfolding marshal
encode v = elim (marshal v) [
  | ok text ↦ record { status = 200; content_type = "application/json"; body = json text }
  | err e ↦ record { status = 200; content_type = "application/json"; body = no_body }
]

-- `http.Error(w, err.Error(), 500)`, or the result
abbrev pub respond : {A : Type 0} → (A → Value) → Outcome A → Response
respond result (err e) = http_error e 500
respond result (ok a) = encode (result a)

abbrev pub trace_result : String → List Fields → Value
trace_result trace_id spans =
    object
      (field_then "trace_id" (string trace_id) (field_then "spans" (entries_value spans) no_fields))

abbrev pub both_result : List Fields × List Fields → Value
both_result (spans, logs) =
    object
      (field_then "spans" (entries_value spans) (field_then "logs" (entries_value logs) no_fields))

abbrev pub metrics_result : List Fields → Value
metrics_result metrics = object (field_then "metrics" (entries_value metrics) no_fields)

abbrev pub logs_result : List Fields → Value
logs_result logs = object (field_then "logs" (entries_value logs) no_fields)

abbrev pub not_allowed : Response
not_allowed = http_error "method not allowed" 405

abbrev pub count_if : String → ℕ
count_if value = if value == "" then 0 else 1

module _ (E : Engine) (s : Store E) where
  -- `trace_id` is the path behind "/v1/traces/", where the mux has found that prefix
  unfoldable pub handle_get_trace : String → Request → Response
  handle_get_trace trace_id r =
      if not (r.method == "GET")
      then not_allowed
      else if trace_id == ""
      then http_error "trace_id required" 400
      else respond (trace_result trace_id) (get_trace E s trace_id)

  unfoldable pub handle_query : Request → Response
  handle_query r =
      let job_id = r.query "job_id" in
      let run_id = r.query "run_id" in
      let trace_id = r.query "trace_id" in
      let filter_count = count_if job_id + count_if run_id + count_if trace_id in
      let limit = parse_limit (r.query "limit") in
      if not (r.method == "GET")
      then not_allowed
      else if not (nat_eq filter_count 1)
      then http_error "exactly one of job_id, run_id, or trace_id required" 400
      else respond both_result (
          if not (job_id == "")
          then query_by_key E s "job_id" job_id limit
          else if not (run_id == "")
          then query_by_key E s "run_id" run_id limit
          else query_by_key E s "trace_id" trace_id limit)

  unfoldable pub handle_get_metrics : Request → Response
  handle_get_metrics r =
      let name = r.query "name" in
      if not (r.method == "GET")
      then not_allowed
      else if name == ""
      then http_error "name parameter required" 400
      else respond metrics_result (query_metrics E s name (parse_limit (r.query "limit")))

  unfoldable pub handle_get_logs : Request → Response
  handle_get_logs r =
      if not (r.method == "GET")
      then not_allowed
      else respond logs_result (
          query_logs E s (r.query "event_name") (parse_severity (r.query "min_severity"))
            (parse_limit (r.query "limit")))

  unfoldable pub handle_healthz : Response
  handle_healthz = record {
    status = 200;
    content_type = "text/plain; charset=utf-8";
    body = plain "ok";
  }

  unfoldable pub handle_readyz : Response
  handle_readyz = elim (E.ping s.db) [
    | err e ↦ http_error "not ready" 503
    | ok _ ↦ record {
      status = 200;
      content_type = "text/plain; charset=utf-8";
      body = plain "ready";
    }
  ]

  -- The mux of `NewHandler`, behind what `http.ServeMux` answers itself: redirects to clean paths,
  -- and to "/v1/traces/".
  unfoldable pub serve : (String → Option Response) → Request → Response
  serve redirect r = elim (redirect r.path) [
    | some response ↦ response
    | none ↦ elim (cut_prefix r.path "/v1/traces/") [
      | some trace_id ↦ handle_get_trace trace_id r
      | none ↦
          if r.path == "/v1/query"
          then handle_query r
          else if r.path == "/v1/metrics"
          then handle_get_metrics r
          else if r.path == "/v1/logs"
          then handle_get_logs r
          else if r.path == "/healthz"
          then handle_healthz
          else if r.path == "/readyz"
          then handle_readyz
          else http_error "404 page not found" 404
    ]
  ]
