-- ===== src/Emit/Op.antt =====
-- The operation names of emit/emit.go, which are the names of the spans.
use otelstore.Base.{String}

abbrev pub invoke_workflow : String
invoke_workflow = "invoke_workflow"

abbrev pub invoke_agent : String
invoke_agent = "invoke_agent"

abbrev pub plan : String
plan = "plan"

abbrev pub execute_tool : String
execute_tool = "execute_tool"

abbrev pub model_call : String
model_call = "chat"
