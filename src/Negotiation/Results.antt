-- ===== src/Negotiation/Results.antt =====
-- Negotiation results (sip/negotiation/results.py). The notes that a policy engine writes are
-- values of `PolicyNote`, with what the source writes into each text.
use semantic_intent_protocol.Base.{Value, Dict, String, Bool, Option, List, ℕ}
use semantic_intent_protocol.Envelope.Enums.{
  DataSensitivity, OperationClass, BindingType, TrustLevel,
}
use semantic_intent_protocol.Registry.Models.{RiskLevel, CapabilityDescriptor}

-- `f"{best.rationale} (selected as top candidate; gap to second={gap:.1f})"` is `with_gap`.
pub data RationalePart : Type 0 where
  exact_name_match partial_name_match domain_match operation_class_match : RationalePart
  preferred_binding : BindingType → RationalePart
  score_part : ℕ → RationalePart
  with_gap : ℕ → RationalePart

abbrev pub Rationale : Type 0
Rationale = List RationalePart

pub record RankedCandidate : Type 0 where
  pub capability : CapabilityDescriptor
  pub score : ℕ
  pub rationale : Rationale

pub data PolicyNote : Type 0 where
  no_provenance : PolicyNote
  effective_scopes_missing : List String → PolicyNote
  effective_scopes_present : List String → PolicyNote
  provenance_scope_skipped : PolicyNote
  originator_trust_low originator_trust_met : TrustLevel → TrustLevel → PolicyNote
  scopes_missing : List String → PolicyNote
  scopes_granted : List String → PolicyNote
  no_scopes_required : PolicyNote
  risk_approval_required risk_approval_not_required : RiskLevel → OperationClass → PolicyNote
  sensitivity_denied sensitivity_compatible : RiskLevel → DataSensitivity → PolicyNote
  delegation_too_deep delegation_within_limits : ℕ → PolicyNote
  capability_requires_approval : PolicyNote

pub record PolicyDecisionSummary : Type 0 where
  pub allowed : Bool
  pub requires_approval : Bool
  pub denied_scopes : List String
  pub policy_notes : List PolicyNote
  pub reason_code : String
  pub conditions : List String
  pub required_approvals : List String
  pub allowed_capabilities : List CapabilityDescriptor

pub data ClarificationQuestion : Type 0 where
  no_capabilities_found : String → String → ClarificationQuestion
  several_match : List String → ClarificationQuestion

pub record NegotiationResult : Type 0 where
  pub intent_id : String
  pub ranked_candidates : List RankedCandidate
  pub selected_capability : Option CapabilityDescriptor
  pub selection_rationale : Rationale
  pub requires_clarification : Bool
  pub clarification_questions : List ClarificationQuestion
  pub allowed_bindings : List BindingType
  pub selected_binding : Option BindingType
  pub policy_decision : PolicyDecisionSummary
  pub extensions : Dict Value
