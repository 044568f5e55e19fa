-- ===== src/Core/FailClosed.antt =====
-- The fail-closed checks (sip/core/fail_closed.py). `err` is a raised `FailClosedError`, with the
-- denial that it wraps.
use semantic_intent_protocol.Envelope.Enums.{TrustLevel}
use semantic_intent_protocol.Base.{
  [], none, some, is_empty, not, ◌&&◌, String, err, if◌then◌else◌, ok, Bool, List, Option, Result,
  ◌∷◌,
}
use semantic_intent_protocol.Core.Intent.{NormalizedIntent}
use semantic_intent_protocol.Core.Policy.{lacks_originator}
use semantic_intent_protocol.Envelope.Validator.{excess, sorted_set}
use semantic_intent_protocol.Negotiation.Planner.{ExecutionPlan}
use semantic_intent_protocol.Policy.Interface.{
  CanonicalNote, PolicyReason, PolicyResult, ReasonCode,
}

-- The texts of `required_actions`.
pub data RequiredAction : Type 0 where
  return_a_result review_policy_decision include_originator provide_trust_level : RequiredAction
  supply_a_candidate make_candidates_compatible include_an_allowed_candidate : RequiredAction
  obtain_approval : List String → RequiredAction

-- The dict `metadata` of a denial.
pub data DenialMetadata : Type 0 where
  no_metadata : DenialMetadata
  evaluation_notes_of : List CanonicalNote → DenialMetadata
  required_and_provided : List String → List String → DenialMetadata

pub record StructuredDenial : Type 0 where
  pub reason_code : ReasonCode
  pub reason : PolicyReason
  pub required_actions : List RequiredAction
  pub metadata : DenialMetadata

abbrev pub Checked : Type 0
Checked = Result StructuredDenial (Unit {0})

-- `raise FailClosedError.from_reason(...)`
abbrev pub from_reason {ℓ} :
    {A : Type ℓ}
    → ReasonCode
    → PolicyReason
    → List RequiredAction
    → DenialMetadata
    → Result StructuredDenial A
from_reason code why actions data_of =
    err
      (record { reason_code = code; reason = why; required_actions = actions; metadata = data_of })

unfoldable pub check_policy_decision_present : Option PolicyResult → Checked
check_policy_decision_present none =
    from_reason ReasonCode.evaluation_error PolicyReason.no_result (return_a_result ∷ [])
      no_metadata
check_policy_decision_present (some r) = ok tt

-- `reason or "Policy denied the intent."`
abbrev pub reason_or_default : PolicyReason → PolicyReason
reason_or_default PolicyReason.no_reason = PolicyReason.denied_by_policy
reason_or_default why = why

-- The trust level of an actor, which may be missing at run time.
unfoldable pub check_trust_level_present : Option TrustLevel → Checked
check_trust_level_present none =
    from_reason ReasonCode.missing_trust_level PolicyReason.trust_level_missing
      (provide_trust_level ∷ []) no_metadata
check_trust_level_present (some level) = ok tt

unfoldable pub check_policy_allowed : PolicyResult → Checked
check_policy_allowed r =
    if not r.allowed
    then from_reason r.reason_code (reason_or_default r.reason) (review_policy_decision ∷ [])
        (evaluation_notes_of r.evaluation_notes)
    else ok tt

unfoldable pub check_provenance_present : Bool → NormalizedIntent → Checked
check_provenance_present require i =
    if require && lacks_originator i
    then from_reason ReasonCode.missing_provenance PolicyReason.originator_missing
        (include_originator ∷ []) no_metadata
    else ok tt

unfoldable pub check_allowed_capabilities_present : PolicyResult → Checked
check_allowed_capabilities_present r =
    if is_empty r.allowed_capabilities
    then from_reason ReasonCode.no_allowed_capabilities PolicyReason.none_remain
        (supply_a_candidate ∷ []) no_metadata
    else ok tt

unfoldable pub check_required_approvals_met : PolicyResult → Option (List String) → Checked
unfolding sorted_set
check_required_approvals_met r provided =
    let granted : List String = elim provided [ none ↦ [] | some names ↦ names ] in
    let missing = excess r.required_approvals granted in
    if is_empty missing
    then ok tt
    else from_reason ReasonCode.missing_required_approvals
        (PolicyReason.approvals_lacking (sorted_set missing))
        (obtain_approval (sorted_set missing) ∷ [])
        (required_and_provided (sorted_set r.required_approvals) (sorted_set granted))

unfoldable pub check_no_deterministic_plan_possible : Option ExecutionPlan → Checked
check_no_deterministic_plan_possible none =
    from_reason ReasonCode.no_allowed_capabilities PolicyReason.no_plan
      (make_candidates_compatible ∷ []) no_metadata
check_no_deterministic_plan_possible (some p) = ok tt
