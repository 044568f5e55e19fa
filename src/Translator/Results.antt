-- ===== src/Translator/Results.antt =====
-- `TranslationResult` and what the adapters share (sip/translator/base.py). A payload is a record
-- with the keys of the dict that the source builds.
use semantic_intent_protocol.Base.{
  some, [], is_container, ◌==◌, if◌then◌else◌, not, keep_if, ◌∷◌, none, Bool, String, List, Option,
  Dict, Value,
}
use semantic_intent_protocol.Envelope.Enums.{binding_eq, BindingType}
use semantic_intent_protocol.Negotiation.Planner.{ExecutionPlan}

pub record RestPayload : Type 0 where
  pub method : String
  pub path : String
  pub headers : Dict String
  pub body : Dict Value
  pub query_params : Dict Value

pub record GrpcPayload : Type 0 where
  pub service_name : String
  pub method_name : String
  pub request_message : Dict Value
  pub grpc_metadata : List (String × String)

pub record ContractInput : Type 0 where
  pub properties : Dict String
  pub required : List String

pub record ContractOutput : Type 0 where
  pub description : String
  pub properties : Dict String

pub record ExecutionContract : Type 0 where
  pub input_schema : ContractInput
  pub output_schema : ContractOutput
  pub idempotent : Bool
  pub supports_dry_run : Bool

-- The dict `trace` of a payload.
pub record PayloadTrace : Type 0 where
  pub trace_id : String
  pub span_id : String
  pub intent_id : String

pub record McpPayload : Type 0 where
  pub tool_name : String
  pub tool_arguments : Dict Value
  pub execution_contract : ExecutionContract
  pub trace : PayloadTrace

pub record TaskPayload : Type 0 where
  pub task_type : String
  pub parameters : Dict Value
  pub capability_id : String
  pub desired_output : String

pub record DelegationContext : Type 0 where
  pub trace_id : String
  pub span_id : String
  pub intent_id : String
  pub delegating_plan_id : String
  pub approval_required : Bool

pub record A2aPayload : Type 0 where
  pub agent_task_type : String
  pub target_agent : String
  pub task_payload : TaskPayload
  pub delegation_context : DelegationContext

pub record ResultContract : Type 0 where
  pub output_format : Value
  pub max_results : Value
  pub include_metadata : Value
  pub output_schema : String

pub record RagPayload : Type 0 where
  pub collection : Value
  pub retrieval_query : String
  pub filters : Dict Value
  pub result_contract : ResultContract
  pub trace : PayloadTrace

pub data Payload : Type 0 where
  rest_payload : RestPayload → Payload
  grpc_payload : GrpcPayload → Payload
  mcp_payload : McpPayload → Payload
  a2a_payload : A2aPayload → Payload
  rag_payload : RagPayload → Payload

pub record TranslationResult : Type 0 where
  pub binding_type : BindingType
  pub payload : Payload
  pub metadata : Dict String

-- `_require_binding`, and the result if it does not raise.
unfoldable pub for_binding :
    BindingType → ExecutionPlan → Payload → Dict String → Option TranslationResult
for_binding b p payload metadata =
    if not (p.selected_binding == b)
    then none
    else some (record { binding_type = b; payload = payload; metadata = metadata })

abbrev pub payload_trace : ExecutionPlan → PayloadTrace
payload_trace p = record {
  trace_id = p.trace.trace_id;
  span_id = p.trace.span_id;
  intent_id = p.intent_id;
}

-- The metadata that all adapters give.
abbrev pub origin_of : ExecutionPlan → Dict String
origin_of p =
    ("capability_id", p.selected_capability.capability_id)
    ∷ ("provider_id", p.selected_capability.provider.provider_id)
    ∷ []

-- `isinstance(v, (dict, list))` keeps a value out.
unfoldable pub plain_items : Dict Value → Dict Value
plain_items = keep_if (λ x. not (is_container x.1))
