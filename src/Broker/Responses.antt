-- ===== src/Broker/Responses.antt =====
-- What the endpoints of sip/broker/service.py answer: a status code and the content of a
-- `JSONResponse`.
use semantic_intent_protocol.Base.{
  Fields, Items, ◌∷◌, ℕ, Bool, String, List, Option, Value, ℤ, none, some, true, false, [],
}
use semantic_intent_protocol.Broker.Discovery.Models.{DiscoveryError}
use semantic_intent_protocol.Broker.Handlers.{BrokerAudit, BrokerNotes, BrokerResult}
use semantic_intent_protocol.Negotiation.Results.{PolicyNote}
use semantic_intent_protocol.Observability.Audit.{ActionTaken, OutcomeSummary}

-- The dict `audit_record` of a response to a submission.
pub record AuditSummary : Type 0 where
  pub trace_id : String
  pub intent_id : String
  pub actor_id : String
  pub actor_type : String
  pub intent_name : String
  pub intent_domain : String
  pub operation_class : String
  pub selected_capability_id : Option String
  pub selected_binding : Option String
  pub action_taken : ActionTaken
  pub policy_allowed : Bool
  pub outcome_summary : OutcomeSummary
  pub notes : BrokerNotes
  pub timestamp : ℤ

-- The dict `response_body`.
pub record ResponseBody : Type 0 where
  pub intent_id : String
  pub outcome : OutcomeSummary
  pub action_taken : ActionTaken
  pub policy_allowed : Bool
  pub approval_required : Bool
  pub plan_id : Option String
  pub requires_clarification : Bool
  pub policy_notes : List PolicyNote
  pub audit_record : AuditSummary

-- The `detail` of an error is the text of an exception.
pub data Detail : Type 0 where
  exception_text : String → Detail
  discovery_raised : DiscoveryError → Detail

pub data Content : Type 0 where
  json : Value → Content
  failure : String → Detail → Content
  submission : ResponseBody → Content

pub record JsonResponse : Type 0 where
  pub status_code : ℕ
  pub content : Content

-- The values of a JSON list, and the fields of a dict, in order.
abbrev pub items_of : List Value → Items
items_of [] = Items.end_items
items_of (v ∷ vs) = Items.item v (items_of vs)

abbrev pub fields_of : List (String × Value) → Fields
fields_of [] = Fields.end_fields
fields_of ((k, v) ∷ rest) = Fields.field k v (fields_of rest)

-- The JSON value of a content. The texts of what a discovery raises and of the notes in a response
-- body are parameters.
abbrev pub content_value : (DiscoveryError → String) → (ResponseBody → Value) → Content → Value
content_value detail_text body_value (json v) = v
content_value detail_text body_value (failure name (exception_text x)) =
    Value.dict (fields_of (("error", Value.str name) ∷ ("detail", Value.str x) ∷ []))
content_value detail_text body_value (failure name (discovery_raised x)) =
    Value.dict (fields_of (("error", Value.str name) ∷ ("detail", Value.str (detail_text x)) ∷ []))
content_value detail_text body_value (submission body) = body_value body

abbrev audit_summary : BrokerAudit → AuditSummary
audit_summary a = record {
  trace_id = a.trace_id;
  intent_id = a.intent_id;
  actor_id = a.actor_id;
  actor_type = a.actor_type;
  intent_name = a.intent_name;
  intent_domain = a.intent_domain;
  operation_class = a.operation_class;
  selected_capability_id = a.selected_capability_id;
  selected_binding = a.selected_binding;
  action_taken = a.action_taken;
  policy_allowed = a.policy_allowed;
  outcome_summary = a.outcome_summary;
  notes = a.notes;
  timestamp = a.timestamp;
}

-- `response_body` of `submit_intent`.
unfoldable pub response_body : BrokerResult → ResponseBody
response_body r = record {
  intent_id = r.audit_record.intent_id;
  outcome = r.audit_record.outcome_summary;
  action_taken = r.audit_record.action_taken;
  policy_allowed = r.audit_record.policy_allowed;
  approval_required = elim r.execution_plan [ none ↦ false | some p ↦ p.approval_required ];
  plan_id = elim r.execution_plan [ none ↦ none | some p ↦ some p.plan_id ];
  requires_clarification = elim r.negotiation_result [
    | none ↦ true
    | some n ↦ n.requires_clarification
  ];
  policy_notes = elim r.negotiation_result [ none ↦ [] | some n ↦ n.policy_decision.policy_notes ];
  audit_record = audit_summary r.audit_record;
}
