-- ===== src/Sdk/Serialization.antt =====
-- sip/sdk/serialization.py. What a parse is given is a value of Python: a text is read as JSON,
-- anything else is validated as it is.
pub mod Laws
use semantic_intent_protocol.Base.{
  ℕ, String, List, Option, none, some, [], ◌∷◌, ◌<>◌, Value, ℤ, Result, ok, err,
}
use semantic_intent_protocol.Broker.Discovery.Models.{DiscoveryRequest, DiscoveryResponse}
use semantic_intent_protocol.Core.Intent.{validated}
use semantic_intent_protocol.Envelope.Models.{IntentEnvelope}
use semantic_intent_protocol.Negotiation.Planner.{ExecutionPlan}
use semantic_intent_protocol.Negotiation.Results.{NegotiationResult}
use semantic_intent_protocol.Observability.Audit.{AuditRecord}
use semantic_intent_protocol.Registry.Models.{CapabilityDescriptor}
use semantic_intent_protocol.Sdk.Errors.{sip_validation_error, SipError}
use semantic_intent_protocol.Wire.{Json, Schema}

unfoldable pub to_dict : {A : Type 0} → Schema A → A → Value
to_dict S a = S.model_dump a

unfoldable pub to_json : {A : Type 0} → Schema A → Option ℤ → A → String
to_json S indent a = S.model_dump_json a indent

-- Pydantic's `ValidationError` is a `ValueError`, so the first handler takes it as well.
abbrev pub parse_failure : String → String → SipError
parse_failure label x = sip_validation_error ("Failed to parse " <> label <> ": " <> x) []

judged : {A : Type 0} → String → Result String A → Result SipError A
judged label (ok a) = ok a
judged label (err x) = err (parse_failure label x)

judged_json : {A : Type 0} → Schema A → String → Result String Value → Result SipError A
unfolding judged
judged_json S label (err x) = err (parse_failure label x)
judged_json S label (ok v) = judged label (S.model_validate v)

unfoldable pub parse_model : {A : Type 0} → Json → Schema A → String → Value → Result SipError A
unfolding judged judged_json
parse_model J S label (Value.str t) = judged_json S label (J.loads t)
parse_model J S label v = judged label (S.model_validate v)

module _ (J : Json) where
  abbrev pub parse_intent_envelope : Schema IntentEnvelope → Value → Result SipError IntentEnvelope
  parse_intent_envelope S = parse_model J S "IntentEnvelope"

  abbrev pub parse_capability_descriptor :
      Schema CapabilityDescriptor → Value → Result SipError CapabilityDescriptor
  parse_capability_descriptor S = parse_model J S "CapabilityDescriptor"

  abbrev pub parse_execution_plan : Schema ExecutionPlan → Value → Result SipError ExecutionPlan
  parse_execution_plan S = parse_model J S "ExecutionPlan"

  abbrev pub parse_negotiation_result :
      Schema NegotiationResult → Value → Result SipError NegotiationResult
  parse_negotiation_result S = parse_model J S "NegotiationResult"

  abbrev pub parse_audit_record :
      {Note : Type 0} → Schema (AuditRecord Note) → Value → Result SipError (AuditRecord Note)
  parse_audit_record S = parse_model J S "AuditRecord"

  abbrev pub parse_discovery_request :
      Schema DiscoveryRequest → Value → Result SipError DiscoveryRequest
  parse_discovery_request S = parse_model J S "DiscoveryRequest"

  abbrev pub parse_discovery_response :
      {Score : Type 0}
      → Schema (DiscoveryResponse Score)
      → Value
      → Result SipError (DiscoveryResponse Score)
  parse_discovery_response S = parse_model J S "DiscoveryResponse"
