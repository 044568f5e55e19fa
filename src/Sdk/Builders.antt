-- ===== src/Sdk/Builders.antt =====
-- sip/sdk/builders.py. An argument that the caller leaves out is passed as its default. What the
-- envelope draws from `uuid4` and from the clock is the argument `EnvelopeDraws`.
pub mod Accepted
pub mod Buildable
use semantic_intent_protocol.Base.{
  pos, Value, Dict, ℕ, String, List, Option, none, some, [], ◌∷◌, Bool, Result, ok, err, ◌>>=◌,
  ◌>>◌, true, false,
}
use semantic_intent_protocol.Envelope.Enums.{
  binding_types, binding_type_value, determinism_value, trust_level_value, operation_classes,
  actor_type_value, operation_class_value, ActorType, BindingType, TargetType, OperationClass,
  MessageType, TrustLevel, Priority, DataSensitivity, DeterminismLevel,
}
use semantic_intent_protocol.Envelope.Models.{
  ProtocolBinding, IntentEnvelope, ProvenanceBlock, TargetDescriptor, ActorDescriptor, Constraints,
  ContextBlock, Datetime,
}
use semantic_intent_protocol.Sdk.Arguments.{
  determinism_levels, require_keys, trust_levels, require_filled, actor_types, sensitivities,
  target_types, or_empty, sensitivity_value, target_type_value, enum_argument, BuildError,
  EnumArgument,
}

unfoldable pub build_actor :
    String
    → String
    → EnumArgument ActorType
    → EnumArgument TrustLevel
    → Option (List String)
    → Result BuildError ActorDescriptor
build_actor actor_id name actor_type trust_level scopes = do
  t ← enum_argument actor_type_value actor_types "ActorDescriptor" actor_type
  l ← enum_argument trust_level_value trust_levels "ActorDescriptor" trust_level
  require_filled "ActorDescriptor" (("actor_id", actor_id) ∷ ("name", name) ∷ [])
  ok (record {
    actor_id = actor_id;
    actor_type = t;
    name = name;
    trust_level = l;
    scopes = or_empty scopes;
  })

unfoldable pub build_target :
    EnumArgument TargetType → Option String → Option String → Result BuildError TargetDescriptor
build_target target_type target_id namespace = do
  t ← enum_argument target_type_value target_types "TargetDescriptor" target_type
  ok (record { target_type = t; target_id = target_id; namespace = namespace })

-- Nothing of it is checked beyond its types.
unfoldable pub build_provenance :
    Option String
    → Option String
    → Option (List String)
    → Option String
    → Option String
    → Option Datetime
    → Option (List String)
    → ProvenanceBlock
build_provenance originator submitted_by chain on_behalf_of purpose expiry authority = record {
  originator = originator;
  submitted_by = submitted_by;
  delegation_chain = or_empty chain;
  on_behalf_of = on_behalf_of;
  delegation_purpose = purpose;
  delegation_expiry = expiry;
  authority_scope = authority;
}

unfoldable pub build_protocol_binding :
    EnumArgument BindingType
    → Option String
    → Option (Dict Value)
    → Result BuildError ProtocolBinding
build_protocol_binding binding_type endpoint metadata = do
  t ← enum_argument binding_type_value binding_types "ProtocolBinding" binding_type
  ok (record { binding_type = t; endpoint = endpoint; metadata = or_empty metadata })

-- The arguments of `build_intent_envelope`.
pub record EnvelopeArguments : Type 0 where
  pub actor : ActorDescriptor
  pub intent_name : String
  pub intent_domain : String
  pub operation_class : EnumArgument OperationClass
  pub outcome_summary : String
  pub target_type : EnumArgument TargetType
  pub target_id : Option String
  pub intent_parameters : Option (Dict Value)
  pub natural_language_hint : Option String
  pub constraints : Option Constraints
  pub context : Option ContextBlock
  pub protocol_bindings : Option (List ProtocolBinding)
  pub provenance : Option ProvenanceBlock
  pub output_format : Option String
  pub success_criteria : Option (List String)
  pub data_sensitivity : EnumArgument DataSensitivity
  pub determinism_required : EnumArgument DeterminismLevel
  pub extensions : Option (Dict Value)

pub record EnvelopeDraws : Type 0 where
  pub intent_id : String
  pub trace_id : String
  pub span_id : String
  pub timestamp : Datetime

-- The fields that `Constraints` takes from its defaults.
abbrev pub constraints_of : DataSensitivity → DeterminismLevel → Constraints
constraints_of sensitivity determinism = record {
  time_budget_ms = none;
  cost_budget = none;
  allowed_actions = [];
  forbidden_actions = [];
  data_sensitivity = sensitivity;
  determinism_required = determinism;
  priority = Priority.normal;
}

default_constraints :
    EnumArgument DataSensitivity → EnumArgument DeterminismLevel → Result BuildError Constraints
default_constraints data_sensitivity determinism_required = do
  s ← enum_argument sensitivity_value sensitivities "IntentEnvelope" data_sensitivity
  l ← enum_argument determinism_value determinism_levels "IntentEnvelope" determinism_required
  ok (constraints_of s l)

-- Constraints that are given are taken as they are.
build_constraints :
    Option Constraints
    → EnumArgument DataSensitivity
    → EnumArgument DeterminismLevel
    → Result BuildError Constraints
unfolding default_constraints
build_constraints none sensitivity determinism = default_constraints sensitivity determinism
build_constraints (some given) sensitivity determinism = ok given

abbrev pub default_context : ContextBlock
default_context = record {
  session_id = none;
  user_locale = none;
  environment = "production";
  additional = [];
}

-- `IntentEnvelope(...)` of the parts, with the defaults of its other fields.
abbrev pub envelope_of :
    EnvelopeDraws
    → EnvelopeArguments
    → OperationClass
    → TargetDescriptor
    → Constraints
    → Dict Value
    → IntentEnvelope
envelope_of d a op target constraints extensions = record {
  sip_version = "0.1";
  message_type = MessageType.intent_request;
  intent_id = d.intent_id;
  trace_id = d.trace_id;
  span_id = d.span_id;
  timestamp = d.timestamp;
  actor = a.actor;
  target = target;
  intent = record {
    intent_name = a.intent_name;
    intent_domain = a.intent_domain;
    operation_class = op;
    natural_language_hint = a.natural_language_hint;
    parameters = or_empty a.intent_parameters;
  };
  desired_outcome = record {
    summary = a.outcome_summary;
    output_format = a.output_format;
    success_criteria = or_empty a.success_criteria;
  };
  constraints = constraints;
  context = elim a.context [ none ↦ default_context | some c ↦ c ];
  capability_requirements = [];
  trust = record {
    declared_trust_level = TrustLevel.internal;
    delegation_chain = [];
    token_reference = none;
  };
  protocol_bindings = or_empty a.protocol_bindings;
  negotiation = record {
    candidate_capabilities = [];
    allow_fallback = true;
    max_candidates = pos 5;
  };
  integrity = record { schema_version = "0.1"; signed = false; signature_reference = none };
  provenance = a.provenance;
  extensions = extensions;
}

unfoldable pub build_intent_envelope :
    EnvelopeDraws → EnvelopeArguments → Result BuildError IntentEnvelope
unfolding build_target build_constraints
build_intent_envelope d a = do
  op ← enum_argument operation_class_value operation_classes "IntentEnvelope" a.operation_class
  target ← build_target a.target_type a.target_id none
  require_filled "IntentEnvelope"
      (("intent_name", a.intent_name) ∷ ("intent_domain", a.intent_domain) ∷ [])
  require_filled "IntentEnvelope" (("summary", a.outcome_summary) ∷ [])
  constraints ← build_constraints a.constraints a.data_sensitivity a.determinism_required
  extensions ← require_keys "IntentEnvelope" (or_empty a.extensions)
  ok (envelope_of d a op target constraints extensions)
