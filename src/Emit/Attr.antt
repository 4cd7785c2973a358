-- ===== src/Emit/Attr.antt =====
-- The attribute keys of emit/emit.go that its helpers set.
use otelstore.Base.{String}

abbrev pub run_id : String
run_id = "run_id"

abbrev pub job_id : String
job_id = "job_id"

abbrev pub workflow_name : String
workflow_name = "workflow_name"

abbrev pub agent_id : String
agent_id = "agent_id"

abbrev pub tool_name : String
tool_name = "tool_name"

abbrev pub gen_ai_operation_name : String
gen_ai_operation_name = "gen_ai.operation.name"

abbrev pub gen_ai_workflow_name : String
gen_ai_workflow_name = "gen_ai.workflow.name"

abbrev pub gen_ai_conversation_id : String
gen_ai_conversation_id = "gen_ai.conversation.id"

abbrev pub gen_ai_agent_id : String
gen_ai_agent_id = "gen_ai.agent.id"

abbrev pub gen_ai_tool_name : String
gen_ai_tool_name = "gen_ai.tool.name"

abbrev pub gen_ai_provider_name : String
gen_ai_provider_name = "gen_ai.provider.name"

abbrev pub gen_ai_request_model : String
gen_ai_request_model = "gen_ai.request.model"
