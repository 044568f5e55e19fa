-- ===== src/Broker/Handlers.antt =====
-- `process_intent` (sip/broker/handlers.py). What the source draws from the clock and from `uuid4`
-- is the argument `Draws`.
pub mod Laws
pub mod Audit
pub mod Approval
pub mod Branches
pub mod Success
use semantic_intent_protocol.Base.{
  [], false, not, if◌then◌else◌, ℤ, none, some, true, String, Bool, Option, List, Result, ok, err,
}
use semantic_intent_protocol.Envelope.Enums.{
  operation_class_value, actor_type_value, binding_type_value,
}
use semantic_intent_protocol.Envelope.Models.{IntentEnvelope}
use semantic_intent_protocol.Envelope.Validator.{validate_envelope, ValidationError}
use semantic_intent_protocol.Negotiation.Matcher.{match}
use semantic_intent_protocol.Negotiation.Planner.{plan, ExecutionPlan, PlanError}
use semantic_intent_protocol.Negotiation.Results.{
  PolicyNote, ClarificationQuestion, NegotiationResult,
}
use semantic_intent_protocol.Observability.Audit.{OutcomeSummary, ActionTaken, AuditRecord}
use semantic_intent_protocol.Policy.Engine.{evaluate}
use semantic_intent_protocol.Registry.Storage.{CapabilityStore}
use mathlib.Core.Option

pub record Draws : Type 0 where
  pub checked_at : ℤ
  pub recorded_at : ℤ
  pub audit_id : String
  pub plan_id : String

-- What the source joins into the notes of the record.
pub data BrokerNotes : Type 0 where
  validation_notes : List ValidationError → BrokerNotes
  clarification_notes : List ClarificationQuestion → BrokerNotes
  policy_notes : List PolicyNote → BrokerNotes
  planning_note : PlanError → BrokerNotes

abbrev pub BrokerAudit : Type 0
BrokerAudit = AuditRecord BrokerNotes

pub record BrokerResult : Type 0 where
  pub audit_record : BrokerAudit
  pub negotiation_result : Option NegotiationResult
  pub execution_plan : Option ExecutionPlan
  pub validation_errors : Option (List ValidationError)

-- The arguments of `create_audit_record` that differ between the branches.
record Verdict : Type 0 where
  capability_id : Option String
  binding : Option String
  action : ActionTaken
  allowed : Bool
  approval : String
  outcome : OutcomeSummary
  notes : BrokerNotes

-- `create_audit_record`, with the arguments that all branches take from the envelope.
audit_for : Draws → IntentEnvelope → Verdict → BrokerAudit
audit_for d e v = record {
  audit_id = d.audit_id;
  timestamp = d.recorded_at;
  trace_id = e.trace_id;
  intent_id = e.intent_id;
  actor_id = e.actor.actor_id;
  actor_type = actor_type_value e.actor.actor_type;
  intent_name = e.intent.intent_name;
  intent_domain = e.intent.intent_domain;
  operation_class = operation_class_value e.intent.operation_class;
  selected_capability_id = v.capability_id;
  selected_binding = v.binding;
  action_taken = v.action;
  policy_allowed = v.allowed;
  approval_state = v.approval;
  outcome_summary = v.outcome;
  notes = v.notes;
  originator = elim e.provenance [ none ↦ none | some p ↦ p.originator ];
  submitting_actor = elim e.provenance [ none ↦ none | some p ↦ p.submitted_by ];
  delegation_chain = elim e.provenance [ none ↦ [] | some p ↦ p.delegation_chain ];
  correlation_id = none;
  normalized_intent_id = none;
  policy_reason_code = none;
  selection_basis = none;
  expected_execution_path = [];
  pre_execution_denial = false;
  extensions = [];
}

unfoldable pub refuse_invalid : Draws → IntentEnvelope → List ValidationError → BrokerResult
unfolding audit_for
refuse_invalid d e errors = record {
  audit_record = audit_for d e (record {
    capability_id = none;
    binding = none;
    action = ActionTaken.validation_failed;
    allowed = false;
    approval = "not_required";
    outcome = OutcomeSummary.error;
    notes = validation_notes errors;
  });
  negotiation_result = none;
  execution_plan = none;
  validation_errors = some errors;
}

unfoldable pub ask_clarification : Draws → IntentEnvelope → NegotiationResult → BrokerResult
unfolding audit_for
ask_clarification d e n = record {
  audit_record = audit_for d e (record {
    capability_id = none;
    binding = none;
    action = ActionTaken.clarification_requested;
    allowed = true;
    approval = "not_required";
    outcome = OutcomeSummary.needs_clarification;
    notes = clarification_notes n.clarification_questions;
  });
  negotiation_result = some n;
  execution_plan = none;
  validation_errors = none;
}

abbrev selected_id : NegotiationResult → Option String
selected_id n = Option.map (λ c. c.capability_id) n.selected_capability

abbrev selected_binding_value : NegotiationResult → Option String
selected_binding_value n = Option.map binding_type_value n.selected_binding

unfoldable pub deny_by_policy : Draws → IntentEnvelope → NegotiationResult → BrokerResult
unfolding audit_for
deny_by_policy d e n = record {
  audit_record = audit_for d e (record {
    capability_id = selected_id n;
    binding = selected_binding_value n;
    action = ActionTaken.policy_denied;
    allowed = false;
    approval = "not_required";
    outcome = OutcomeSummary.denied;
    notes = policy_notes n.policy_decision.policy_notes;
  });
  negotiation_result = some n;
  execution_plan = none;
  validation_errors = none;
}

unfoldable pub reject_plan : Draws → IntentEnvelope → NegotiationResult → PlanError → BrokerResult
unfolding audit_for
reject_plan d e n why = record {
  audit_record = audit_for d e (record {
    capability_id = none;
    binding = none;
    action = ActionTaken.plan_rejected;
    allowed = true;
    approval = "not_required";
    outcome = OutcomeSummary.error;
    notes = planning_note why;
  });
  negotiation_result = some n;
  execution_plan = none;
  validation_errors = none;
}

unfoldable pub accept_plan :
    Draws → IntentEnvelope → NegotiationResult → ExecutionPlan → BrokerResult
unfolding audit_for
accept_plan d e n p =
    let waits = n.policy_decision.requires_approval in
    record {
      audit_record = audit_for d e (record {
        capability_id = selected_id n;
        binding = selected_binding_value n;
        action = if waits then ActionTaken.approval_requested else ActionTaken.plan_created;
        allowed = true;
        approval = if waits then "pending" else "not_required";
        outcome = if waits then OutcomeSummary.pending_approval else OutcomeSummary.success;
        notes = policy_notes n.policy_decision.policy_notes;
      });
      negotiation_result = some n;
      execution_plan = some p;
      validation_errors = none;
    }

-- Steps 4 and 5, from the negotiation result that the policy engine has enriched.
pub plan_and_record : Draws → IntentEnvelope → NegotiationResult → BrokerResult
plan_and_record d e n =
    if not n.policy_decision.allowed
    then deny_by_policy d e n
    else elim (plan d.plan_id e n) [ err why ↦ reject_plan d e n why | ok p ↦ accept_plan d e n p ]

-- Steps 3 to 5.
pub decide : Bool → Draws → IntentEnvelope → NegotiationResult → BrokerResult
decide enforce d e n =
    if n.requires_clarification
    then ask_clarification d e n
    else plan_and_record d e (evaluate enforce e n)

module _ (lower : String → String) where
  unfoldable pub process_intent : Bool → CapabilityStore → Draws → IntentEnvelope → BrokerResult
  unfolding refuse_invalid decide ask_clarification plan_and_record reject_plan accept_plan
      deny_by_policy
  process_intent enforce s d e =
      let validation = validate_envelope d.checked_at e in
      if not validation.valid
      then refuse_invalid d e validation.errors
      else decide enforce d e (match lower s e)
