-- ===== src/Negotiation/Planner.antt =====
-- `ExecutionPlanner` (sip/negotiation/planner.py). The identifier that the source draws for a new
-- plan is an argument. A `ValueError` is a `PlanError`.
pub mod Laws
use semantic_intent_protocol.Base.{
  [], some, insert, lookup, ◌==◌, ◌||◌, is_blank, is_some, Items, if◌then◌else◌, ◌<>◌, ◌∷◌, none,
  String, Bool, true, false, not, List, Option, ℕ, Result, ok, err, Dict, Value,
}
use semantic_intent_protocol.Envelope.Enums.{
  binding_eq, OperationClass, binding_type_value, BindingType, TrustLevel,
}
use semantic_intent_protocol.Envelope.Models.{ProtocolBinding, IntentEnvelope, ProvenanceBlock}
use semantic_intent_protocol.Negotiation.Results.{NegotiationResult, Rationale}
use semantic_intent_protocol.Policy.Interface.{PolicyReason}
use semantic_intent_protocol.Registry.Models.{CapabilityDescriptor}
use mathlib.Core.Option

pub data ExecutionType : Type 0 where
  mcp_tool rest_api grpc_service a2a_agent internal_skill manual_step : ExecutionType

unfoldable pub binding_to_execution_type : BindingType → ExecutionType
binding_to_execution_type BindingType.rest = rest_api
binding_to_execution_type BindingType.grpc = grpc_service
binding_to_execution_type BindingType.mcp = mcp_tool
binding_to_execution_type BindingType.a2a = a2a_agent
binding_to_execution_type BindingType.rag = rest_api

pub record TraceMetadata : Type 0 where
  pub trace_id : String
  pub span_id : String
  pub parent_span_id : Option String
  pub intent_id : String

pub record ExecutionStep : Type 0 where
  pub step_index : ℕ
  pub step_name : String
  pub description : String
  pub capability_id : String
  pub binding : BindingType
  pub execution_type : ExecutionType
  pub parameters : Dict Value
  pub depends_on : List ℕ

-- The notes of a check, with what the source writes into each text.
pub data CheckNote : Type 0 where
  trust_meets_minimum : TrustLevel → TrustLevel → CheckNote
  operation_matches : OperationClass → OperationClass → CheckNote
  policy_reason : PolicyReason → CheckNote
  selected_from : String → ℕ → CheckNote

pub record PolicyCheckRecord : Type 0 where
  pub check_name : String
  pub result : String
  pub notes : CheckNote

-- The dict that `_build_deterministic_target` returns.
pub record DeterministicTarget : Type 0 where
  pub capability_id : String
  pub provider_id : String
  pub binding_type : String
  pub endpoint : String

-- Why the capability was selected: by its rank, or by the stable sort among so many.
pub data SelectionBasis : Type 0 where
  by_rank : Rationale → SelectionBasis
  by_stable_sort : String → String → ℕ → SelectionBasis

pub record ExecutionPlan : Type 0 where
  pub plan_id : String
  pub intent_id : String
  pub selected_capability : CapabilityDescriptor
  pub selected_binding : BindingType
  pub execution_type : ExecutionType
  pub deterministic_target : DeterministicTarget
  pub grounded_parameters : Dict Value
  pub execution_steps : List ExecutionStep
  pub preconditions : List String
  pub guard_conditions : List String
  pub fallback_behavior : String
  pub expected_outputs : List String
  pub selection_basis : SelectionBasis
  pub policy_checks_passed : List PolicyCheckRecord
  pub approval_required : Bool
  pub trace : TraceMetadata
  pub provenance_summary : Option (Dict Value)
  pub extensions : Dict Value

pub data PlanError : Type 0 where
  no_capability_selected no_binding_selected : String → PlanError

-- The marker for a required field that the intent lacks.
abbrev pub required_marker : String → Value
required_marker name = Value.str ("<REQUIRED:" <> (name <> ">"))

-- The loop over the required fields, which both planners run.
unfoldable pub fill_required : List String → Dict Value → Dict Value
fill_required [] grounded = grounded
fill_required (name ∷ names) grounded = fill_required names (
    if is_some (lookup name grounded)
    then grounded
    else insert name (required_marker name) grounded)

-- `_ground_parameters`
ground_parameters : IntentEnvelope → CapabilityDescriptor → Dict Value
unfolding fill_required
ground_parameters e c = fill_required c.input_schema.required_fields e.intent.parameters

-- The endpoint of the first protocol binding of the selected type.
endpoint_for : BindingType → List ProtocolBinding → Option String
endpoint_for b [] = none
endpoint_for b (pb ∷ pbs) =
    let rest = endpoint_for b pbs in if pb.binding_type == b then pb.endpoint else rest

-- `endpoint or f"<ENDPOINT:{provider_id}/{capability_id}>"`
abbrev pub endpoint_or_placeholder : Option String → CapabilityDescriptor → String
endpoint_or_placeholder endpoint c =
    let placeholder =
      "<ENDPOINT:" <> (c.provider.provider_id <> ("/" <> (c.capability_id <> ">"))) in
    elim endpoint [ none ↦ placeholder | some t ↦ if is_blank t then placeholder else t ]

abbrev pub target_at : CapabilityDescriptor → BindingType → Option String → DeterministicTarget
target_at c b endpoint = record {
  capability_id = c.capability_id;
  provider_id = c.provider.provider_id;
  binding_type = binding_type_value b;
  endpoint = endpoint_or_placeholder endpoint c;
}

-- `_build_deterministic_target`
build_deterministic_target :
    CapabilityDescriptor → BindingType → IntentEnvelope → DeterministicTarget
unfolding endpoint_for
build_deterministic_target c b e = target_at c b (endpoint_for b e.protocol_bindings)

abbrev pub optional_text : Option String → Value
optional_text none = Value.null
optional_text (some t) = Value.str t

abbrev pub texts : List String → Items
texts [] = Items.end_items
texts (t ∷ ts) = Items.item (Value.str t) (texts ts)

provenance_summary_of : ProvenanceBlock → Dict Value
provenance_summary_of p =
    ("originator", optional_text p.originator)
    ∷ ("submitted_by", optional_text p.submitted_by)
    ∷ ("delegation_chain", Value.list (texts p.delegation_chain))
    ∷ []

-- The one step of a plan; the two planners name the intent differently in its description.
abbrev pub invoke_step : CapabilityDescriptor → BindingType → String → Dict Value → ExecutionStep
invoke_step c b intent parameters = record {
  step_index = 0;
  step_name = "invoke_" <> c.capability_id;
  description =
      "Invoke '"
      <> (c.name
          <> ("' via " <> (binding_type_value b <> (" binding for intent '" <> (intent <> "'.")))));
  capability_id = c.capability_id;
  binding = b;
  execution_type = binding_to_execution_type b;
  parameters = parameters;
  depends_on = [];
}

-- `[description] if description else []`
abbrev pub expected_outputs_of : CapabilityDescriptor → List String
expected_outputs_of c =
    if is_blank c.output_schema.description then [] else c.output_schema.description ∷ []

unfoldable pub plan_for :
    String → IntentEnvelope → NegotiationResult → CapabilityDescriptor → BindingType → ExecutionPlan
unfolding ground_parameters build_deterministic_target provenance_summary_of
    binding_to_execution_type
plan_for plan_id e n c b = record {
  plan_id = plan_id;
  intent_id = e.intent_id;
  selected_capability = c;
  selected_binding = b;
  execution_type = binding_to_execution_type b;
  deterministic_target = build_deterministic_target c b e;
  grounded_parameters = ground_parameters e c;
  execution_steps = invoke_step c b e.intent.intent_name (ground_parameters e c) ∷ [];
  preconditions = [];
  guard_conditions = [];
  fallback_behavior = "fail_closed";
  expected_outputs = expected_outputs_of c;
  selection_basis = by_rank n.selection_rationale;
  policy_checks_passed =
      record {
        check_name = "trust_level";
        result = "passed";
        notes = trust_meets_minimum e.actor.trust_level c.minimum_trust_tier;
      }
      ∷ record {
        check_name = "operation_class_match";
        result = "passed";
        notes = operation_matches e.intent.operation_class c.operation_class;
      }
      ∷ [];
  approval_required = n.policy_decision.requires_approval || c.constraints.requires_human_approval;
  trace = record {
    trace_id = e.trace_id;
    span_id = e.span_id;
    parent_span_id = none;
    intent_id = e.intent_id;
  };
  provenance_summary = Option.map provenance_summary_of e.provenance;
  extensions = [];
}

-- `ExecutionPlanner.plan`
unfoldable pub plan : String → IntentEnvelope → NegotiationResult → Result PlanError ExecutionPlan
unfolding plan_for
plan plan_id e n = elim n.selected_capability [
  | none ↦ err (no_capability_selected e.intent_id)
  | some c ↦ elim n.selected_binding [
    | none ↦ err (no_binding_selected e.intent_id)
    | some b ↦ ok (plan_for plan_id e n c b)
  ]
]
