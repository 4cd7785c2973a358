-- ===== src/Emit.antt =====
-- emit/emit.go: the span helpers of the emitting side. The OpenTelemetry SDK that they call is not
-- modelled: a helper is the name, the kind and the attributes that it hands to the SDK.
pub mod Attr
pub mod Op
pub mod Contract
use otelstore.Base.{String, Option, none, some, List, [], ◌∷◌, ◌++◌}
use otelstore.Value.{AnyValue, string_value, KeyValues, no_key_values, key_value_then}
use Attr
use Op

pub data SpanKind : Type 0 where
  kind_internal kind_client : SpanKind

-- `attribute.KeyValue`, all of them texts here
abbrev pub Attribute : Type 0
Attribute = String × String

pub record StartedSpan : Type 0 where
  pub name : String
  pub kind : SpanKind
  pub attributes : List Attribute

-- the attributes as the exporter sends them
abbrev pub exported : List Attribute → KeyValues
exported [] = no_key_values
exported ((key, value) ∷ rest) = key_value_then key (string_value value) (exported rest)

unfoldable pub start_workflow_span : String → String → StartedSpan
start_workflow_span run_id workflow_name = record {
  name = Op.invoke_workflow;
  kind = kind_internal;
  attributes =
      (Attr.run_id, run_id)
      ∷ (Attr.workflow_name, workflow_name)
      ∷ (Attr.gen_ai_operation_name, Op.invoke_workflow)
      ∷ (Attr.gen_ai_workflow_name, workflow_name)
      ∷ (Attr.gen_ai_conversation_id, run_id)
      ∷ [];
}

unfoldable pub start_agent_span : String → String → String → StartedSpan
start_agent_span run_id job_id agent_id = record {
  name = Op.invoke_agent;
  kind = kind_internal;
  attributes =
      (Attr.run_id, run_id)
      ∷ (Attr.job_id, job_id)
      ∷ (Attr.agent_id, agent_id)
      ∷ (Attr.gen_ai_operation_name, Op.invoke_agent)
      ∷ (Attr.gen_ai_agent_id, agent_id)
      ∷ [];
}

unfoldable pub start_plan_span : String → String → StartedSpan
start_plan_span run_id job_id = record {
  name = Op.plan;
  kind = kind_internal;
  attributes =
      (Attr.run_id, run_id) ∷ (Attr.job_id, job_id) ∷ (Attr.gen_ai_operation_name, Op.plan) ∷ [];
}

unfoldable pub start_tool_span : String → String → String → StartedSpan
start_tool_span run_id job_id tool_name = record {
  name = Op.execute_tool;
  kind = kind_internal;
  attributes =
      (Attr.run_id, run_id)
      ∷ (Attr.job_id, job_id)
      ∷ (Attr.tool_name, tool_name)
      ∷ (Attr.gen_ai_operation_name, Op.execute_tool)
      ∷ (Attr.gen_ai_tool_name, tool_name)
      ∷ [];
}

-- `func(attrs *[]attribute.KeyValue)`: what it leaves of the attributes that it is given
abbrev pub ModelOption : Type 0
ModelOption = List Attribute → List Attribute

unfoldable pub with_provider_name : String → ModelOption
with_provider_name name attrs = attrs ++ (Attr.gen_ai_provider_name, name) ∷ []

unfoldable pub with_request_model : String → ModelOption
with_request_model model attrs = attrs ++ (Attr.gen_ai_request_model, model) ∷ []

-- `for _, opt := range opts { opt(&attrs) }`
unfoldable pub apply_options : List Attribute → List ModelOption → List Attribute
apply_options attrs [] = attrs
apply_options attrs (opt ∷ opts) = apply_options (opt attrs) opts

unfoldable pub start_model_span : String → String → List ModelOption → StartedSpan
unfolding apply_options
start_model_span run_id job_id opts = record {
  name = Op.model_call;
  kind = kind_client;
  attributes =
      apply_options
        ((Attr.run_id, run_id)
          ∷ (Attr.job_id, job_id)
          ∷ (Attr.gen_ai_operation_name, Op.model_call)
          ∷ [])
        opts;
}

-- What `RecordError` changes of a span: the status, with its description, and the exceptions.
pub record SpanState : Type 0 where
  pub error_status : Option String
  pub exceptions : List String

unfoldable pub record_error : SpanState → Option String → SpanState
record_error span none = span
record_error span (some e) = record span {
  error_status = some e;
  exceptions = span.exceptions ++ e ∷ [];
}
