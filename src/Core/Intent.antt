-- ===== src/Core/Intent.antt =====
-- `NormalizedIntent` and `from_envelope` (sip/core/normalized_intent.py). Python's `str` and
-- Pydantic's `model_dump` are parameters, the clock is an argument. `none` is a `ValueError`.
pub mod Complete
use semantic_intent_protocol.Base.{
  some, [], Bool, ◌∷◌, string_eq, insert, map, text_leb, ◌||◌, Float, contains, is_blank, lookup,
  not, Fields, Items, if◌then◌else◌, ℤ, Dict, List, Option, String, Value, none,
}
use semantic_intent_protocol.Envelope.Enums.{
  binding_type_value, trust_level_value, operation_class_value, priority_value, DataSensitivity,
  TrustLevel, actor_type_value, determinism_value,
}
use semantic_intent_protocol.Envelope.Models.{CapabilityRequirement, IntentEnvelope}
use semantic_intent_protocol.Negotiation.Matcher.{first}
use semantic_intent_protocol.Negotiation.Planner.{optional_text}
use mathlib.Core.Option

pub record NormalizedActor : Type 0 where
  pub actor_id : String
  pub actor_type : String
  pub name : String
  pub trust_level : TrustLevel
  pub scopes : List String
  pub originator : Option String
  pub delegation_chain : List String

pub record NormalizedConstraints : Type 0 where
  pub time_budget_ms : Option ℤ
  pub cost_budget : Option Float
  pub data_sensitivity : DataSensitivity
  pub determinism_required : String
  pub priority : String
  pub allowed_actions : List String
  pub forbidden_actions : List String

pub record NormalizedIntent : Type 0 where
  pub intent_id : String
  pub correlation_id : String
  pub schema_version : String
  pub actor : NormalizedActor
  pub tenant : Option String
  pub goal : String
  pub constraints : NormalizedConstraints
  pub required_capabilities : List String
  pub risk_level : Option String
  pub compliance_requirements : List String
  pub data_sensitivity : DataSensitivity
  pub jurisdiction : Option String
  pub preferred_execution_mode : Option String
  pub trust_requirements : TrustLevel
  pub raw_request : Dict Value
  pub metadata : Dict Value
  pub created_at : ℤ

-- `NormalizedActor(...)`
normalized_actor : IntentEnvelope → NormalizedActor
normalized_actor e = record {
  actor_id = e.actor.actor_id;
  actor_type = actor_type_value e.actor.actor_type;
  name = e.actor.name;
  trust_level = e.actor.trust_level;
  scopes = e.actor.scopes;
  originator = elim e.provenance [ none ↦ none | some p ↦ p.originator ];
  delegation_chain = elim e.provenance [ none ↦ [] | some p ↦ p.delegation_chain ];
}

-- `NormalizedConstraints(...)`
normalized_constraints : IntentEnvelope → NormalizedConstraints
normalized_constraints e = record {
  time_budget_ms = e.constraints.time_budget_ms;
  cost_budget = e.constraints.cost_budget;
  data_sensitivity = e.constraints.data_sensitivity;
  determinism_required = determinism_value e.constraints.determinism_required;
  priority = priority_value e.constraints.priority;
  allowed_actions = e.constraints.allowed_actions;
  forbidden_actions = e.constraints.forbidden_actions;
}

-- The loop over the requirements: the texts of the levels are compared, not their order.
pub trust_requirements_of : List CapabilityRequirement → TrustLevel → TrustLevel
trust_requirements_of [] t = t
trust_requirements_of (r ∷ rs) t = trust_requirements_of rs (
    if not (text_leb (trust_level_value r.minimum_trust_tier) (trust_level_value t))
    then r.minimum_trust_tier
    else t)

-- `dict(...)` as a value.
abbrev pub fields_of : Dict Value → Fields
fields_of [] = Fields.end_fields
fields_of ((k, v) ∷ d) = Fields.field k v (fields_of d)

-- `k in ("tenant", "jurisdiction", "compliance")`
pub is_extracted : String → Bool
is_extracted k = contains {A = String} ("tenant" ∷ "jurisdiction" ∷ "compliance" ∷ []) k

-- `d.update(...)` with the items whose key is none of the three that are extracted before.
update_metadata : Dict Value → Dict Value → Dict Value
unfolding is_extracted
update_metadata [] d = d
update_metadata ((k, v) ∷ additional) d =
    update_metadata additional (if is_extracted k then d else insert k v d)

metadata_of : IntentEnvelope → Dict Value
unfolding update_metadata
metadata_of e = update_metadata e.context.additional (
    ("session_id", optional_text e.context.session_id)
    ∷ ("user_locale", optional_text e.context.user_locale)
    ∷ ("environment", Value.str e.context.environment)
    ∷ ("intent_name", Value.str e.intent.intent_name)
    ∷ ("intent_domain", Value.str e.intent.intent_domain)
    ∷ ("operation_class", Value.str (operation_class_value e.intent.operation_class))
    ∷ ("natural_language_hint", optional_text e.intent.natural_language_hint)
    ∷ ("parameters", Value.dict (fields_of e.intent.parameters))
    ∷ [])

-- `_validate_critical_fields`, and the `min_length` of the goal.
unfoldable pub validated : NormalizedIntent → Option NormalizedIntent
validated i =
    if is_blank i.intent_id
      || (is_blank i.correlation_id || (is_blank i.goal || is_blank i.actor.actor_id))
    then none
    else some i

module _ (text_of : Value → String) (model_dump : IntentEnvelope → Dict Value) where
  -- `str(v) if v is not None else None`, for a key of `additional`.
  optional_string : Option Value → Option String
  optional_string none = none
  optional_string (some Value.null) = none
  optional_string (some v) = some (text_of v)

  strings_of : Items → List String
  strings_of Items.end_items = []
  strings_of (Items.item v vs) = text_of v ∷ strings_of vs

  compliance_of : Option Value → List String
  unfolding strings_of
  compliance_of (some (Value.list vs)) = strings_of vs
  compliance_of (some (Value.str t)) = t ∷ []
  compliance_of _ = []

  normalized : ℤ → IntentEnvelope → NormalizedIntent
  unfolding normalized_actor normalized_constraints trust_requirements_of metadata_of
      optional_string compliance_of
  normalized now e = record {
    intent_id = e.intent_id;
    correlation_id = e.trace_id;
    schema_version = "0.2";
    actor = normalized_actor e;
    tenant = optional_string (lookup "tenant" e.context.additional);
    goal = e.desired_outcome.summary;
    constraints = normalized_constraints e;
    required_capabilities = map (λ r. r.capability_name) e.capability_requirements;
    risk_level = none;
    compliance_requirements = compliance_of (lookup "compliance" e.context.additional);
    data_sensitivity = e.constraints.data_sensitivity;
    jurisdiction = optional_string (lookup "jurisdiction" e.context.additional);
    preferred_execution_mode =
        Option.map (λ pb. binding_type_value pb.binding_type) (first e.protocol_bindings);
    trust_requirements =
        trust_requirements_of e.capability_requirements e.trust.declared_trust_level;
    raw_request = model_dump e;
    metadata = metadata_of e;
    created_at = now;
  }

  unfoldable pub from_envelope : ℤ → IntentEnvelope → Option NormalizedIntent
  unfolding validated normalized
  from_envelope now e = validated (normalized now e)
