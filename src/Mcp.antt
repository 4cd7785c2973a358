-- ===== src/Mcp.antt =====
-- internal/mcpserver/mcpserver.go: the tools of the MCP server.
pub mod Tools
use otelstore.Base.{String, List, [], ◌∷◌, Outcome, ok, err, ◌>>=◌, ◌==◌, if◌then◌else◌}
use otelstore.Base.Int.{pos}
use otelstore.Value.{Fields}
use otelstore.Http.{Request, Reply}
use otelstore.Sql.{Engine}
use otelstore.Store.Inserts.{Store}
use otelstore.Store.Queries.{query_by_key, get_trace, error_spans}

pub record QueryJobOutput : Type 0 where
  pub spans : List Fields
  pub logs : List Fields
  pub errors : List Fields

pub record QueryRunOutput : Type 0 where
  pub spans : List Fields
  pub logs : List Fields

pub record GetTraceOutput : Type 0 where
  pub trace_id : String
  pub spans : List Fields

module _ (E : Engine) (s : Store E) where
  unfoldable pub query_job_handler : String → Outcome QueryJobOutput
  query_job_handler job_id = if job_id == "" then err "job_id required" else (do
    found ← query_by_key E s "job_id" job_id (pos 1000)
    ok (record { spans = found.0; logs = found.1; errors = error_spans found.0 }))

  unfoldable pub query_run_handler : String → Outcome QueryRunOutput
  query_run_handler run_id = if run_id == "" then err "run_id required" else (do
    found ← query_by_key E s "run_id" run_id (pos 1000)
    ok (record { spans = found.0; logs = found.1 }))

  unfoldable pub get_trace_handler : String → Outcome GetTraceOutput
  get_trace_handler trace_id =
      if trace_id == ""
      then err "trace_id required"
      else (do found ← get_trace E s trace_id; ok (record { trace_id = trace_id; spans = found }))

-- The tools as `NewServer` registers them: the input of each is one text, under the key of its
-- document.
pub data ToolOutput : Type 0 where
  job_output : QueryJobOutput → ToolOutput
  run_output : QueryRunOutput → ToolOutput
  trace_output : GetTraceOutput → ToolOutput

pub record Tool : Type 0 where
  pub name : String
  pub description : String
  pub input_key : String
  pub call : String → Outcome ToolOutput

module _ (E : Engine) (s : Store E) where
  unfoldable pub query_job_tool : Tool
  query_job_tool = record {
    name = "query_job";
    description = "Query spans, logs, and errors for a specific job by job_id";
    input_key = "job_id";
    call = λ job_id. query_job_handler E s job_id >>= λ output. ok (job_output output);
  }

  unfoldable pub query_run_tool : Tool
  query_run_tool = record {
    name = "query_run";
    description = "Query spans and logs for a specific run by run_id";
    input_key = "run_id";
    call = λ run_id. query_run_handler E s run_id >>= λ output. ok (run_output output);
  }

  unfoldable pub get_trace_tool : Tool
  get_trace_tool = record {
    name = "get_trace";
    description = "Get all spans for a specific trace by trace_id";
    input_key = "trace_id";
    call = λ trace_id. get_trace_handler E s trace_id >>= λ output. ok (trace_output output);
  }

  -- `NewServer`
  unfoldable pub new_server : List Tool
  new_server = query_job_tool ∷ query_run_tool ∷ get_trace_tool ∷ []

  -- `NewStreamableHTTPHandler`: what the SDK answers to a request, from the tools that it is given
  unfoldable pub streamable_http_handler : (List Tool → Request → Reply) → Request → Reply
  streamable_http_handler sdk r = sdk new_server r
