-- ===== src/Emit/Contract.antt =====
-- What the spans that the helpers of emit/emit.go start become in the store.
use mathlib.Core.List.{Mem}
use mathlib.Core.Option
use otelstore.Base.{
  All, ok, ◌==◌, false, ◌≢◌, Char, String, ◌≡◌, refl, ap, ◌∙◌, Option, none, some, List, [], ◌∷◌,
  ◌++◌, string_discrete, arith,
}
use otelstore.Value.{
  object, AnyValue, string_value, Resource, Scope, string, Fields, convert_any_value, lookup,
}
use otelstore.Value.Convert.{last_value, lookup-merge_attributes}
use otelstore.Redact.{apply}
use otelstore.Sql.{Engine, IsLawful}
use otelstore.Sql.Rows.{SpanRow, document}
use otelstore.Store.Records.{Span, merged_attrs}
use otelstore.Store.Inserts.{Store, insert_spans}
use otelstore.Store.RoundTrip.{made_row, row_stored}
use otelstore.Emit.{
  Attribute, StartedSpan, exported, start_workflow_span, start_agent_span, start_plan_span,
  start_tool_span, ModelOption, with_provider_name, with_request_model, apply_options,
  start_model_span,
}

-- The calls of the helpers.
pub data Start : Type 0 where
  workflow : (run_id workflow_name : String) → Start
  agent : (run_id job_id agent_id : String) → Start
  plan : (run_id job_id : String) → Start
  tool : (run_id job_id tool_name : String) → Start
  model : (run_id job_id : String) → List ModelOption → Start

abbrev pub started : Start → StartedSpan
started (workflow r w) = start_workflow_span r w
started (agent r j a) = start_agent_span r j a
started (plan r j) = start_plan_span r j
started (tool r j t) = start_tool_span r j t
started (model r j opts) = start_model_span r j opts

abbrev pub run_of : Start → String
run_of (workflow r w) = r
run_of (agent r j a) = r
run_of (plan r j) = r
run_of (tool r j t) = r
run_of (model r j opts) = r

-- a workflow has no job
abbrev pub job_of : Start → Option String
job_of (workflow r w) = none
job_of (agent r j a) = some j
job_of (plan r j) = some j
job_of (tool r j t) = some j
job_of (model r j opts) = some j

-- the text of a key among the attributes
abbrev text_at : String → List Attribute → Option AnyValue
text_at key attrs = last_value key (exported attrs)

-- the keys that a helper sets itself, and that the store and the queries go by
abbrev pub owned_keys : List String
owned_keys = "run_id" ∷ "job_id" ∷ "gen_ai.operation.name" ∷ []

-- an option that leaves the values of those keys as they are
abbrev pub IsDecoration : ModelOption → Type 0
IsDecoration opt =
    (attrs : List Attribute) → All (λ key. text_at key (opt attrs) ≡ text_at key attrs) owned_keys

text_at-append :
    (key k v : String) (attrs : List Attribute)
    → key ≢ k
    → text_at key (attrs ++ (k, v) ∷ []) ≡ text_at key attrs
unfolding last_value
text_at-append key k v [] n = ground arith
text_at-append key k v ((k', v') ∷ attrs) n = ground (arith, text_at-append key k v attrs n)

differ : (a b : String) → (a == b) ≡ false → a ≢ b
differ a b h k = ground arith

-- the options of the package are decorations
pub with_provider_name-IsDecoration : (name : String) → IsDecoration (with_provider_name name)
unfolding with_provider_name string_discrete
with_provider_name-IsDecoration name attrs = (
  text_at-append "run_id" "gen_ai.provider.name" name attrs (differ _ _ refl),
  (
    text_at-append "job_id" "gen_ai.provider.name" name attrs (differ _ _ refl),
    (
      text_at-append "gen_ai.operation.name" "gen_ai.provider.name" name attrs (differ _ _ refl),
      tt,
    ),
  ),
)

pub with_request_model-IsDecoration : (name : String) → IsDecoration (with_request_model name)
unfolding with_request_model string_discrete
with_request_model-IsDecoration name attrs = (
  text_at-append "run_id" "gen_ai.request.model" name attrs (differ _ _ refl),
  (
    text_at-append "job_id" "gen_ai.request.model" name attrs (differ _ _ refl),
    (
      text_at-append "gen_ai.operation.name" "gen_ai.request.model" name attrs (differ _ _ refl),
      tt,
    ),
  ),
)

text_at-apply_options :
    (opts : List ModelOption) (attrs : List Attribute)
    → All IsDecoration opts
    → All (λ key. text_at key (apply_options attrs opts) ≡ text_at key attrs) owned_keys
unfolding apply_options
text_at-apply_options [] attrs h = (refl, (refl, (refl, tt)))
text_at-apply_options (opt ∷ opts) attrs (h, hs) =
    let (a, (b, (c, _))) = text_at-apply_options opts (opt attrs) hs in
    let (a', (b', (c', _))) = h attrs in (a ∙ a', (b ∙ b', (c ∙ c', tt)))

-- the options of a call keep the keys
abbrev pub IsDecorated : Start → Type 0
IsDecorated (workflow r w) = Unit
IsDecorated (agent r j a) = Unit
IsDecorated (plan r j) = Unit
IsDecorated (tool r j t) = Unit
IsDecorated (model r j opts) = All IsDecoration opts

run_id_given :
    (q : Start)
    → IsDecorated q
    → text_at "run_id" (started q).attributes ≡ some (string_value (run_of q))
unfolding start_workflow_span start_agent_span start_plan_span start_tool_span start_model_span
    last_value string_discrete
run_id_given (workflow r w) d = refl
run_id_given (agent r j a) d = refl
run_id_given (plan r j) d = refl
run_id_given (tool r j t) d = refl
run_id_given (model r j opts) d = (text_at-apply_options opts _ d).0

job_id_given :
    (q : Start) (j : String)
    → IsDecorated q
    → job_of q ≡ some j
    → text_at "job_id" (started q).attributes ≡ some (string_value j)
unfolding start_workflow_span start_agent_span start_plan_span start_tool_span start_model_span
    last_value string_discrete
job_id_given (workflow r w) j d h = cc
job_id_given (agent r j' a) j d h = ap (λ (o : Option String). Option.map string_value o) h
job_id_given (plan r j') j d h = ap (λ (o : Option String). Option.map string_value o) h
job_id_given (tool r j' t) j d h = ap (λ (o : Option String). Option.map string_value o) h
job_id_given (model r j' opts) j d h =
    (text_at-apply_options opts _ d).1.0 ∙ ap (λ (o : Option String). Option.map string_value o) h

operation_given :
    (q : Start)
    → IsDecorated q
    → text_at "gen_ai.operation.name" (started q).attributes ≡ some (string_value (started q).name)
unfolding start_workflow_span start_agent_span start_plan_span start_tool_span start_model_span
    last_value string_discrete
operation_given (workflow r w) d = refl
operation_given (agent r j a) d = refl
operation_given (plan r j) d = refl
operation_given (tool r j t) d = refl
operation_given (model r j opts) d = (text_at-apply_options opts _ d).1.1.0

-- A span that the SDK makes of what a helper started: it has the name, and at each key the value
-- that the helper or an option set last.
pub record IsExport (q : Start) (span : Span) : Type 0 where
  pub name : span.name ≡ (started q).name
  pub same :
      (key : String)
      → last_value key span.attributes ≡ last_value key (exported (started q).attributes)

module _ (E : Engine) (law : IsLawful E) (lower : Char → Char) (s : Store E)
    (resource : Option Resource) (scope : Option Scope) (batch : List Span) where
  abbrev rows_after : List SpanRow
  rows_after = (E.tables (insert_spans E lower s batch resource scope).1.db).span_rows

  abbrev merged : Span → Fields
  merged span = merged_attrs lower s.redactor resource scope span.attributes

  lookup-merged :
      (q : Start) (span : Span) (key v : String)
      → IsExport q span
      → s.redactor ≡ none
      → text_at key (started q).attributes ≡ some (string_value v)
      → lookup key (merged span) ≡ some (string v)
  unfolding merged_attrs apply convert_any_value
  lookup-merged q span key v e plain h =
      rw plain
        (lookup-merge_attributes key resource scope span.attributes ∙ rw (e.same key, h) refl)

  -- On a lawful engine: Let no redaction be configured, and let a helper have started a span, with
  -- options, for a model call, that leave the run id, the job id and the operation name alone. If
  -- InsertSpans returns nil for a batch that has the span as the SDK exports it, whatever the
  -- resource and the scope say, then a row is stored that has the name of the span, its run id and,
  -- unless it is that of a workflow, its job id in the columns that the queries go by, and among its
  -- attributes the name of the span as the operation name.
  pub insert_spans-started :
      (q : Start) (span : Span)
      → IsDecorated q
      → IsExport q span
      → s.redactor ≡ none
      → (insert_spans E lower s batch resource scope).0 ≡ ok tt
      → Mem span batch
      → (row : SpanRow) × Mem row rows_after
        × (row.name ≡ (started q).name)
        × (row.run_id ≡ run_of q)
        × ((job_id : String) → job_of q ≡ some job_id → row.job_id ≡ job_id)
        × ((attrs : Fields) × (row.attributes ≡ document (object attrs))
            × (lookup "gen_ai.operation.name" attrs ≡ some (string (started q).name)))
  insert_spans-started q span d e plain done m = (
    made_row lower s.redactor resource scope span,
    row_stored E law lower s resource scope batch span done m,
    e.name,
    rw (lookup-merged q span "run_id" (run_of q) e plain (run_id_given q d)) refl,
    (λ job_id h.
        rw (lookup-merged q span "job_id" job_id e plain (job_id_given q job_id d h)) refl),
    (
      merged span,
      refl,
      lookup-merged q span "gen_ai.operation.name" (started q).name e plain (operation_given q d),
    ),
  )
