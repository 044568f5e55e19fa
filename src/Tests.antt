-- ===== src/Tests.antt =====
-- Concrete envelopes, capabilities and stores, for the tests and for the examples of the theorems.
mod Registry
mod Requests
mod Core
mod Pipeline
mod Discovery
mod Edges
mod Sdk
mod Builders
mod Seeds
mod Wire
use semantic_intent_protocol.Base.{[], none, pos, Value, String, ℤ, ◌∷◌, some, true, false}
use semantic_intent_protocol.Broker.Handlers.{Draws}
use semantic_intent_protocol.Envelope.Enums.{
  ActorType, TargetType, OperationClass, Priority, DeterminismLevel, TrustLevel, DataSensitivity,
  BindingType, MessageType,
}
use semantic_intent_protocol.Envelope.Models.{IntentEnvelope, ProvenanceBlock}
use semantic_intent_protocol.Registry.Models.{CapabilityDescriptor, RiskLevel}
use semantic_intent_protocol.Registry.Storage.{CapabilityStore}

-- Texts that are in lower case already.
abbrev pub same_text : String → String
same_text t = t

abbrev pub noon : ℤ
noon = pos 1000

abbrev pub get_article : CapabilityDescriptor
get_article = record {
  capability_id = "get_article";
  name = "get article";
  description = "Reads an article.";
  provider = record {
    provider_id = "library";
    provider_name = "Library";
    contact = none;
    version = "1.0";
    documentation_url = none;
  };
  intent_domains = "knowledge" ∷ [];
  input_schema = record {
    schema_id = none;
    description = "";
    properties = ("topic", "the subject") ∷ [];
    required_fields = "topic" ∷ "language" ∷ [];
  };
  output_schema = record {
    schema_id = none;
    description = "the article";
    properties = [];
    required_fields = [];
  };
  operation_class = OperationClass.retrieve;
  risk_level = RiskLevel.low;
  required_scopes = "read" ∷ [];
  minimum_trust_tier = TrustLevel.internal;
  supported_bindings = BindingType.rest ∷ BindingType.mcp ∷ [];
  execution = record {
    average_latency_ms = none;
    idempotent = true;
    supports_dry_run = false;
    max_retries = pos 3;
  };
  constraints = record {
    rate_limit_per_minute = none;
    requires_human_approval = false;
    allowed_environments = [];
  };
  examples = [];
  tags = [];
  extensions = [];
}

abbrev pub list_articles : CapabilityDescriptor
list_articles = record get_article { capability_id = "list_articles"; name = "list articles" }

abbrev pub library : CapabilityStore
library = ("list_articles", list_articles) ∷ ("get_article", get_article) ∷ []

abbrev pub delegation : ProvenanceBlock
delegation = record {
  originator = some "alice";
  submitted_by = some "bot";
  delegation_chain = "planner" ∷ [];
  on_behalf_of = none;
  delegation_purpose = none;
  delegation_expiry = some (record { local = pos 2000; offset = none });
  authority_scope = some ("read" ∷ []);
}

abbrev pub request : IntentEnvelope
request = record {
  sip_version = "0.1";
  message_type = MessageType.intent_request;
  intent_id = "intent-1";
  trace_id = "trace-1";
  span_id = "span-1";
  timestamp = record { local = pos 900; offset = none };
  actor = record {
    actor_id = "bot";
    actor_type = ActorType.ai_agent;
    name = "Bot";
    trust_level = TrustLevel.internal;
    scopes = "read" ∷ "list" ∷ [];
  };
  target = record { target_type = TargetType.capability; target_id = none; namespace = none };
  intent = record {
    intent_name = "get_article";
    intent_domain = "knowledge";
    operation_class = OperationClass.retrieve;
    natural_language_hint = none;
    parameters = ("topic", Value.str "cats") ∷ [];
  };
  desired_outcome = record { summary = "an article"; output_format = none; success_criteria = [] };
  constraints = record {
    time_budget_ms = some (pos 50);
    cost_budget = none;
    allowed_actions = "fetch" ∷ [];
    forbidden_actions = "drop" ∷ [];
    data_sensitivity = DataSensitivity.internal;
    determinism_required = DeterminismLevel.strict;
    priority = Priority.normal;
  };
  context = record { session_id = none; user_locale = none; environment = "test"; additional = [] };
  capability_requirements = [];
  trust = record {
    declared_trust_level = TrustLevel.internal;
    delegation_chain = [];
    token_reference = none;
  };
  protocol_bindings =
      record { binding_type = BindingType.mcp; endpoint = some "mcp://library"; metadata = [] }
      ∷ [];
  negotiation = record {
    candidate_capabilities = [];
    allow_fallback = true;
    max_candidates = pos 5;
  };
  integrity = record { schema_version = "0.1"; signed = false; signature_reference = none };
  provenance = some delegation;
  extensions = [];
}

abbrev pub draws : Draws
draws = record { checked_at = noon; recorded_at = noon; audit_id = "audit-1"; plan_id = "plan-1" }
