-- ===== src/Policy/Interface.antt =====
-- `PolicyResult` and its reason codes (sip/policy/interface.py). A reason or a note is a value with
-- what the source writes into the text.
use semantic_intent_protocol.Base.{[], false, Value, Dict, String, Bool, List, ℕ}
use semantic_intent_protocol.Envelope.Enums.{DataSensitivity, OperationClass, TrustLevel}
use semantic_intent_protocol.Envelope.Validator.{ValidationError}
use semantic_intent_protocol.Registry.Models.{RiskLevel, CapabilityDescriptor}

pub data ReasonCode : Type 0 where
  allowed missing_provenance missing_trust_level missing_required_approvals : ReasonCode
  missing_scopes no_allowed_capabilities privilege_escalation : ReasonCode
  risk_data_sensitivity_denied delegation_chain_too_long evaluation_error : ReasonCode
  capability_denylist compliance_violation : ReasonCode

abbrev pub reason_code_value : ReasonCode → String
reason_code_value ReasonCode.allowed = "ALLOWED"
reason_code_value ReasonCode.missing_provenance = "MISSING_PROVENANCE"
reason_code_value ReasonCode.missing_trust_level = "MISSING_TRUST_LEVEL"
reason_code_value ReasonCode.missing_required_approvals = "MISSING_REQUIRED_APPROVALS"
reason_code_value ReasonCode.missing_scopes = "MISSING_SCOPES"
reason_code_value ReasonCode.no_allowed_capabilities = "NO_ALLOWED_CAPABILITIES"
reason_code_value ReasonCode.privilege_escalation = "PRIVILEGE_ESCALATION"
reason_code_value ReasonCode.risk_data_sensitivity_denied = "RISK_DATA_SENSITIVITY_DENIED"
reason_code_value ReasonCode.delegation_chain_too_long = "DELEGATION_CHAIN_TOO_LONG"
reason_code_value ReasonCode.evaluation_error = "EVALUATION_ERROR"
reason_code_value ReasonCode.capability_denylist = "CAPABILITY_DENYLIST"
reason_code_value ReasonCode.compliance_violation = "COMPLIANCE_VIOLATION"

-- The text `reason`: what the policy engine, the fail-closed checks, the planner and the pipeline
-- write. `no_reason` is the empty text.
pub data PolicyReason : Type 0 where
  no_reason evaluation_passed originator_missing none_passed : PolicyReason
  chain_exceeds : ℕ → PolicyReason
  no_result denied_by_policy trust_level_missing none_remain none_eligible no_plan : PolicyReason
  approvals_lacking : List String → PolicyReason
  no_supported_binding : String → PolicyReason
  normalization_failed : PolicyReason
  validation_failed : List ValidationError → PolicyReason

pub data CanonicalNote : Type 0 where
  provenance_missing : CanonicalNote
  chain_too_long : ℕ → CanonicalNote
  actor_trust : String → TrustLevel → CanonicalNote
  candidates_to_evaluate : ℕ → CanonicalNote
  excluded : String → CanonicalNote
  allowed_after_filtering : ℕ → CanonicalNote
  scopes_lacking : String → List String → CanonicalNote
  scopes_present no_scopes_needed : String → CanonicalNote
  trust_below trust_reached : String → TrustLevel → CanonicalNote
  approval_needed no_approval_needed : String → RiskLevel → OperationClass → CanonicalNote
  sensitivity_refused sensitivity_accepted : String → RiskLevel → DataSensitivity → CanonicalNote
  always_needs_approval : String → CanonicalNote
  validation_message : ValidationError → CanonicalNote
  denial_message : PolicyReason → CanonicalNote

pub record PolicyResult : Type 0 where
  pub allowed : Bool
  pub reason_code : ReasonCode
  pub reason : PolicyReason
  pub conditions : List String
  pub required_approvals : List String
  pub allowed_capabilities : List CapabilityDescriptor
  pub evaluation_notes : List CanonicalNote
  pub metadata : Dict Value

-- `PolicyResult.deny`
abbrev pub deny_result : ReasonCode → PolicyReason → List CanonicalNote → PolicyResult
deny_result code why notes = record {
  allowed = false;
  reason_code = code;
  reason = why;
  conditions = [];
  required_approvals = [];
  allowed_capabilities = [];
  evaluation_notes = notes;
  metadata = [];
}
