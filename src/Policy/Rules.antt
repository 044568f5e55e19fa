-- ===== src/Policy/Rules.antt =====
-- `check_scopes` (sip/policy/scopes.py) and the risk tables (sip/policy/risk.py).
use semantic_intent_protocol.Base.{
  if◌then◌else◌, string_eq, ◌↔◌, contains, ◌≡◌, is_empty, keep_if, String, Bool, true, false, not,
  List,
}
use semantic_intent_protocol.Envelope.Enums.{DataSensitivity, OperationClass}
use semantic_intent_protocol.Envelope.Validator.Accepted.{IsSubset}
use semantic_intent_protocol.Envelope.Validator.Judges.{excess-empty}
use semantic_intent_protocol.Registry.Models.{RiskLevel}

-- The required scopes that are not granted.
unfoldable pub check_scopes : List String → List String → List String
check_scopes required granted = keep_if (λ scope. not (contains granted scope)) required

-- `_APPROVAL_REQUIRED_COMBINATIONS`
abbrev pub in_approval_combinations : RiskLevel → OperationClass → Bool
in_approval_combinations RiskLevel.high OperationClass.write = true
in_approval_combinations RiskLevel.high OperationClass.execute = true
in_approval_combinations RiskLevel.high OperationClass.delegate = true
in_approval_combinations RiskLevel.critical OperationClass.write = true
in_approval_combinations RiskLevel.critical OperationClass.execute = true
in_approval_combinations RiskLevel.critical OperationClass.read = true
in_approval_combinations RiskLevel.critical OperationClass.delegate = true
in_approval_combinations _ _ = false

-- `_DENIED_COMBINATIONS`
abbrev pub in_denied_combinations : RiskLevel → DataSensitivity → Bool
in_denied_combinations RiskLevel.critical DataSensitivity.restricted = true
in_denied_combinations _ _ = false

unfoldable pub requires_approval : RiskLevel → OperationClass → Bool → Bool
requires_approval risk op enforce = if not enforce then false else in_approval_combinations risk op

unfoldable pub is_denied_by_risk : RiskLevel → DataSensitivity → Bool
is_denied_by_risk risk sensitivity = in_denied_combinations risk sensitivity

-- No scope is missing exactly when all that are required are granted.
pub check_scopes-empty :
    (required granted : List String)
    → (is_empty (check_scopes required granted) ≡ true) ↔ IsSubset required granted
unfolding check_scopes
check_scopes-empty required granted = excess-empty required granted
