-- ===== src/Envelope/Models.antt =====
-- The models of the envelope (sip/envelope/models.py). A time is a count of microseconds.
use semantic_intent_protocol.Base.{
  String, Bool, Option, none, some, List, Dict, ℤ, ◌-ℤ◌, Float, Value,
}
use semantic_intent_protocol.Envelope.Enums.{
  ActorType, TargetType, OperationClass, Priority, DeterminismLevel, TrustLevel, DataSensitivity,
  BindingType, MessageType,
}

-- A `datetime`: the local time, and the offset from UTC if the value carries one.
pub record Datetime : Type 0 where
  pub local : ℤ
  pub offset : Option ℤ

-- The instant in UTC; a value without an offset is read as UTC.
abbrev pub utc_instant : Datetime → ℤ
utc_instant d = elim d.offset [ none ↦ d.local | some o ↦ ◌-ℤ◌ d.local o ]

pub record ActorDescriptor : Type 0 where
  pub actor_id : String
  pub actor_type : ActorType
  pub name : String
  pub trust_level : TrustLevel
  pub scopes : List String

pub record TargetDescriptor : Type 0 where
  pub target_type : TargetType
  pub target_id : Option String
  pub namespace : Option String

pub record IntentPayload : Type 0 where
  pub intent_name : String
  pub intent_domain : String
  pub operation_class : OperationClass
  pub natural_language_hint : Option String
  pub parameters : Dict Value

pub record DesiredOutcome : Type 0 where
  pub summary : String
  pub output_format : Option String
  pub success_criteria : List String

pub record Constraints : Type 0 where
  pub time_budget_ms : Option ℤ
  pub cost_budget : Option Float
  pub allowed_actions : List String
  pub forbidden_actions : List String
  pub data_sensitivity : DataSensitivity
  pub determinism_required : DeterminismLevel
  pub priority : Priority

pub record ContextBlock : Type 0 where
  pub session_id : Option String
  pub user_locale : Option String
  pub environment : String
  pub additional : Dict Value

pub record CapabilityRequirement : Type 0 where
  pub capability_name : String
  pub required_scopes : List String
  pub preferred_binding : Option BindingType
  pub minimum_trust_tier : TrustLevel

pub record TrustBlock : Type 0 where
  pub declared_trust_level : TrustLevel
  pub delegation_chain : List String
  pub token_reference : Option String

pub record ProtocolBinding : Type 0 where
  pub binding_type : BindingType
  pub endpoint : Option String
  pub metadata : Dict Value

pub record NegotiationHints : Type 0 where
  pub candidate_capabilities : List String
  pub allow_fallback : Bool
  pub max_candidates : ℤ

pub record IntegrityBlock : Type 0 where
  pub schema_version : String
  pub signed : Bool
  pub signature_reference : Option String

pub record ProvenanceBlock : Type 0 where
  pub originator : Option String
  pub submitted_by : Option String
  pub delegation_chain : List String
  pub on_behalf_of : Option String
  pub delegation_purpose : Option String
  pub delegation_expiry : Option Datetime
  pub authority_scope : Option (List String)

pub record IntentEnvelope : Type 0 where
  pub sip_version : String
  pub message_type : MessageType
  pub intent_id : String
  pub trace_id : String
  pub span_id : String
  pub timestamp : Datetime
  pub actor : ActorDescriptor
  pub target : TargetDescriptor
  pub intent : IntentPayload
  pub desired_outcome : DesiredOutcome
  pub constraints : Constraints
  pub context : ContextBlock
  pub capability_requirements : List CapabilityRequirement
  pub trust : TrustBlock
  pub protocol_bindings : List ProtocolBinding
  pub negotiation : NegotiationHints
  pub integrity : IntegrityBlock
  pub provenance : Option ProvenanceBlock
  pub extensions : Dict Value
