-- ===== src/Core/Bundle.antt =====
-- `DecisionBundle` (sip/core/decision_bundle.py), and the records and bundles that `SIPPipeline`
-- builds (sip/core/pipeline.py). What the source draws from the clock and from `uuid4` is the
-- argument `PipelineDraws`.
use semantic_intent_protocol.Base.{
  [], map, Value, Dict, is_some, length, is_blank, ltb, ◌&&◌, Option, if◌then◌else◌, not, Bool,
  List, String, ℕ, ℤ, ◌∷◌, none, some, true, false,
}
use semantic_intent_protocol.Core.Intent.{validated, NormalizedIntent}
use semantic_intent_protocol.Envelope.Enums.{
  binding_type_value, operation_class_value, DataSensitivity, actor_type_value,
}
use semantic_intent_protocol.Envelope.Models.{IntentEnvelope}
use semantic_intent_protocol.Envelope.Validator.{ValidationError}
use semantic_intent_protocol.Negotiation.Planner.{ExecutionPlan}
use semantic_intent_protocol.Observability.Audit.{OutcomeSummary, ActionTaken, AuditRecord}
use semantic_intent_protocol.Policy.Interface.{
  reason_code_value, PolicyReason, CanonicalNote, PolicyResult,
}

pub record PipelineDraws : Type 0 where
  pub normalized_at : ℤ
  pub stubbed_at : ℤ
  pub checked_at : ℤ
  pub recorded_at : ℤ
  pub audit_id : String
  pub plan_id : String
  pub span_id : String

-- What the source joins into the notes of the record.
pub data PipelineNotes : Type 0 where
  normalization_error : PipelineNotes
  validation_errors : List ValidationError → PipelineNotes
  evaluation_notes : List CanonicalNote → PipelineNotes
  denial_reason : PolicyReason → PipelineNotes

abbrev pub PipelineAudit : Type 0
PipelineAudit = AuditRecord PipelineNotes

pub record DecisionBundle : Type 0 where
  pub normalized_intent : NormalizedIntent
  pub policy_result : PolicyResult
  pub execution_plan : Option ExecutionPlan
  pub audit_record : PipelineAudit
  pub denied : Bool
  pub metadata : Dict Value

-- `DecisionBundle.allowed`
abbrev pub is_allowed : DecisionBundle → Bool
is_allowed b = not b.denied && is_some b.execution_plan

-- `xs[-n:]`, for a positive `n`.
unfoldable pub last_of {ℓ} : {A : Type ℓ} → ℕ → List A → List A
last_of n [] = []
last_of n (x ∷ xs) = let rest = last_of n xs in if ltb (length xs) n then x ∷ xs else rest

-- `_build_denial_audit`
unfoldable pub build_denial_audit :
    PipelineDraws
    → IntentEnvelope
    → Option NormalizedIntent
    → PolicyResult
    → ActionTaken
    → PipelineNotes
    → PipelineAudit
build_denial_audit d e i r action notes = record {
  audit_id = d.audit_id;
  timestamp = d.recorded_at;
  trace_id = e.trace_id;
  intent_id = e.intent_id;
  actor_id = e.actor.actor_id;
  actor_type = actor_type_value e.actor.actor_type;
  intent_name = e.intent.intent_name;
  intent_domain = e.intent.intent_domain;
  operation_class = operation_class_value e.intent.operation_class;
  selected_capability_id = none;
  selected_binding = none;
  action_taken = action;
  policy_allowed = false;
  approval_state = "not_required";
  outcome_summary = OutcomeSummary.denied;
  notes = notes;
  originator = elim e.provenance [ none ↦ none | some p ↦ p.originator ];
  submitting_actor = elim e.provenance [ none ↦ none | some p ↦ p.submitted_by ];
  delegation_chain = elim e.provenance [ none ↦ [] | some p ↦ p.delegation_chain ];
  correlation_id = some (elim i [ none ↦ e.trace_id | some n ↦ n.correlation_id ]);
  normalized_intent_id = some (elim i [ none ↦ e.intent_id | some n ↦ n.intent_id ]);
  policy_reason_code = some (reason_code_value r.reason_code);
  selection_basis = none;
  expected_execution_path = [];
  pre_execution_denial = true;
  extensions = [];
}

-- The record of stage 6.
unfoldable pub success_audit :
    PipelineDraws → IntentEnvelope → NormalizedIntent → PolicyResult → ExecutionPlan → PipelineAudit
unfolding last_of
success_audit d e i r p =
    let waits = p.approval_required in
    record {
      audit_id = d.audit_id;
      timestamp = d.recorded_at;
      trace_id = e.trace_id;
      intent_id = e.intent_id;
      actor_id = e.actor.actor_id;
      actor_type = actor_type_value e.actor.actor_type;
      intent_name = e.intent.intent_name;
      intent_domain = e.intent.intent_domain;
      operation_class = operation_class_value e.intent.operation_class;
      selected_capability_id = some p.selected_capability.capability_id;
      selected_binding = some (binding_type_value p.selected_binding);
      action_taken = if waits then ActionTaken.approval_requested else ActionTaken.plan_created;
      policy_allowed = true;
      approval_state = if waits then "pending" else "not_required";
      outcome_summary = if waits then OutcomeSummary.pending_approval else OutcomeSummary.success;
      notes = PipelineNotes.evaluation_notes (last_of 3 r.evaluation_notes);
      originator = elim e.provenance [ none ↦ none | some v ↦ v.originator ];
      submitting_actor = elim e.provenance [ none ↦ none | some v ↦ v.submitted_by ];
      delegation_chain = elim e.provenance [ none ↦ [] | some v ↦ v.delegation_chain ];
      correlation_id = some i.correlation_id;
      normalized_intent_id = some i.intent_id;
      policy_reason_code = some (reason_code_value r.reason_code);
      selection_basis = some p.selection_basis;
      expected_execution_path = map (λ s. s.step_name) p.execution_steps;
      pre_execution_denial = false;
      extensions = [];
    }

abbrev pub or_unknown : String → String
or_unknown t = if is_blank t then "<unknown>" else t

-- `_stub_normalized`, before the model's own check.
unfoldable pub stub_fields : ℤ → IntentEnvelope → NormalizedIntent
stub_fields now e = record {
  intent_id = e.intent_id;
  correlation_id = e.trace_id;
  schema_version = "0.2";
  actor = record {
    actor_id = e.actor.actor_id;
    actor_type = actor_type_value e.actor.actor_type;
    name = e.actor.name;
    trust_level = e.actor.trust_level;
    scopes = [];
    originator = none;
    delegation_chain = [];
  };
  tenant = none;
  goal = or_unknown e.desired_outcome.summary;
  constraints = record {
    time_budget_ms = none;
    cost_budget = none;
    data_sensitivity = DataSensitivity.internal;
    determinism_required = "strict";
    priority = "normal";
    allowed_actions = [];
    forbidden_actions = [];
  };
  required_capabilities = [];
  risk_level = none;
  compliance_requirements = [];
  data_sensitivity = e.constraints.data_sensitivity;
  jurisdiction = none;
  preferred_execution_mode = none;
  trust_requirements = e.trust.declared_trust_level;
  raw_request = [];
  metadata = [];
  created_at = now;
}

unfoldable pub stub_normalized : ℤ → IntentEnvelope → Option NormalizedIntent
unfolding validated stub_fields
stub_normalized now e = validated (stub_fields now e)

-- The bundle of a denial.
unfoldable pub denied_bundle : NormalizedIntent → PolicyResult → PipelineAudit → DecisionBundle
denied_bundle i r a = record {
  normalized_intent = i;
  policy_result = r;
  execution_plan = none;
  audit_record = a;
  denied = true;
  metadata = [];
}
