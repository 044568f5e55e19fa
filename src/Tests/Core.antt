-- ===== src/Tests/Core.antt =====
-- The theorems on one normalized intent.
use semantic_intent_protocol.Base.{
  [], ◌∷◌, refl, is_some, if◌then◌else◌, text_leb, ◌↔◌, Dict, NodupKeys, String, insert, ◌≡◌, In,
  List, Value, lookup, none, pos, string_eq, some, true,
}
use semantic_intent_protocol.Core.Intent.{fields_of, NormalizedIntent, from_envelope}
use semantic_intent_protocol.Core.Intent.Complete.{
  metadata-from_envelope, from_envelope-IsComplete, IsComplete,
}
use semantic_intent_protocol.Core.Policy.{CanonicalSettings, evaluate_internal}
use semantic_intent_protocol.Core.Policy.Admitted.{evaluate_internal-IsAdmitted, IsCleared}
use semantic_intent_protocol.Core.Policy.Candidates.{IsAdmitted}
use semantic_intent_protocol.Envelope.Enums.{DataSensitivity, OperationClass, TrustLevel}
use semantic_intent_protocol.Envelope.Models.{IntentEnvelope}
use semantic_intent_protocol.Registry.Models.{RiskLevel, CapabilityDescriptor}
use semantic_intent_protocol.Tests.{get_article, noon, request}

abbrev pub plain_text : Value → String
plain_text v = "text"

abbrev pub no_dump : IntentEnvelope → Dict Value
no_dump e = []

abbrev pub contextual : IntentEnvelope
contextual = record request {
  context = record {
    session_id = none;
    user_locale = none;
    environment = "test";
    additional = ("parameters", Value.str "other") ∷ ("tenant", Value.str "acme") ∷ [];
  };
}

from_envelope-IsComplete_example :
    ((i : NormalizedIntent) × (from_envelope plain_text no_dump noon contextual ≡ some i))
    ↔ IsComplete contextual
from_envelope-IsComplete_example = from_envelope-IsComplete plain_text no_dump noon contextual

abbrev pub intent : NormalizedIntent
intent = record {
  intent_id = "intent-1";
  correlation_id = "trace-1";
  schema_version = "0.2";
  actor = record {
    actor_id = "bot";
    actor_type = "ai_agent";
    name = "Bot";
    trust_level = TrustLevel.internal;
    scopes = "read" ∷ "list" ∷ [];
    originator = some "alice";
    delegation_chain = "planner" ∷ [];
  };
  tenant = some "text";
  goal = "an article";
  constraints = record {
    time_budget_ms = some (pos 50);
    cost_budget = none;
    data_sensitivity = DataSensitivity.internal;
    determinism_required = "strict";
    priority = "normal";
    allowed_actions = "fetch" ∷ [];
    forbidden_actions = "drop" ∷ [];
  };
  required_capabilities = [];
  risk_level = none;
  compliance_requirements = [];
  data_sensitivity = DataSensitivity.internal;
  jurisdiction = none;
  preferred_execution_mode = some "mcp";
  trust_requirements = TrustLevel.internal;
  raw_request = [];
  metadata =
      ("session_id", Value.null)
      ∷ ("user_locale", Value.null)
      ∷ ("environment", Value.str "test")
      ∷ ("intent_name", Value.str "get_article")
      ∷ ("intent_domain", Value.str "knowledge")
      ∷ ("operation_class", Value.str "retrieve")
      ∷ ("natural_language_hint", Value.null)
      ∷ ("parameters", Value.str "other")
      ∷ [];
  created_at = noon;
}

pub intent_normalized : from_envelope plain_text no_dump noon contextual ≡ some intent
unfolding from_envelope lookup insert text_leb
intent_normalized = refl

contextual-NodupKeys : NodupKeys contextual.context.additional
unfolding lookup
contextual-NodupKeys = (refl, (refl, tt))

metadata-from_envelope_example : lookup "parameters" intent.metadata ≡ (
    if is_some (lookup "parameters" contextual.context.additional)
    then lookup "parameters" contextual.context.additional
    else some (Value.dict (fields_of contextual.intent.parameters)))
metadata-from_envelope_example =
    metadata-from_envelope plain_text no_dump noon contextual intent contextual-NodupKeys
      intent_normalized

abbrev pub settings : CanonicalSettings
settings = record { enforce_approval = true; require_provenance = true }

abbrev candidates : List CapabilityDescriptor
candidates =
    get_article
    ∷ record get_article { required_scopes = "write" ∷ [] }
    ∷ record get_article { operation_class = OperationClass.write; risk_level = RiskLevel.high }
    ∷ []

evaluate_internal-IsAdmitted_example :
    In get_article (evaluate_internal settings intent candidates).allowed_capabilities
    ↔ (IsCleared settings intent × In get_article candidates × IsAdmitted intent get_article)
evaluate_internal-IsAdmitted_example =
    evaluate_internal-IsAdmitted settings intent candidates get_article

-- Of the three candidates the first and the third are allowed, and the third waits.
candidates_evaluated :
    (evaluate_internal settings intent candidates).required_approvals
    ≡ ("human_approval_for_get_article" ∷ [])
unfolding evaluate_internal
candidates_evaluated = refl
