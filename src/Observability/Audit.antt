-- ===== src/Observability/Audit.antt =====
-- The audit record (sip/observability/audit.py). The notes of a record are the messages that the
-- source joins into one text.
use semantic_intent_protocol.Base.{Value, Dict, ℤ, String, Bool, Option, List}
use semantic_intent_protocol.Negotiation.Planner.{SelectionBasis}

pub data ActionTaken : Type 0 where
  plan_created plan_rejected approval_requested clarification_requested : ActionTaken
  policy_denied validation_failed : ActionTaken

pub data OutcomeSummary : Type 0 where
  success pending_approval needs_clarification denied error : OutcomeSummary

-- `Note` is the type of what the notes join.
pub record AuditRecord (Note : Type 0) : Type 0 where
  pub audit_id : String
  pub timestamp : ℤ
  pub trace_id : String
  pub intent_id : String
  pub actor_id : String
  pub actor_type : String
  pub intent_name : String
  pub intent_domain : String
  pub operation_class : String
  pub selected_capability_id : Option String
  pub selected_binding : Option String
  pub action_taken : ActionTaken
  pub policy_allowed : Bool
  pub approval_state : String
  pub outcome_summary : OutcomeSummary
  pub notes : Note
  pub originator : Option String
  pub submitting_actor : Option String
  pub delegation_chain : List String
  pub correlation_id : Option String
  pub normalized_intent_id : Option String
  pub policy_reason_code : Option String
  pub selection_basis : Option SelectionBasis
  pub expected_execution_path : List String
  pub pre_execution_denial : Bool
  pub extensions : Dict Value
