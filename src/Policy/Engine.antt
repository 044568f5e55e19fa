-- ===== src/Policy/Engine.antt =====
-- `PolicyEngine` (sip/policy/engine.py). The state that the numbered steps of `evaluate` share is
-- the record `Evaluation`, and each step is a function on it.
pub mod Permitted
pub mod Approval
use semantic_intent_protocol.Base.{
  [], some, is_some, is_empty, ltb, string_eq, ◌&&◌, contains, if◌then◌else◌, length, ◌++◌, keep_if,
  ◌∷◌, none, String, Bool, true, false, not, List, Option, ℕ,
}
use semantic_intent_protocol.Envelope.Enums.{trust_order}
use semantic_intent_protocol.Envelope.Models.{ProvenanceBlock, IntentEnvelope}
use semantic_intent_protocol.Negotiation.Results.{
  originator_trust_met, no_scopes_required, originator_trust_low, provenance_scope_skipped,
  delegation_within_limits, effective_scopes_present, scopes_granted, capability_requires_approval,
  delegation_too_deep, effective_scopes_missing, risk_approval_not_required, scopes_missing,
  sensitivity_compatible, risk_approval_required, sensitivity_denied, NegotiationResult,
  no_provenance, PolicyDecisionSummary, PolicyNote,
}
use semantic_intent_protocol.Policy.Rules.{check_scopes, is_denied_by_risk, requires_approval}
use semantic_intent_protocol.Registry.Models.{CapabilityDescriptor}

-- `_compute_effective_scopes`
unfoldable pub compute_effective_scopes : List String → Option (List String) → List String
compute_effective_scopes actor_scopes none = actor_scopes
compute_effective_scopes actor_scopes (some authority) = keep_if (contains authority) actor_scopes

abbrev pub max_delegation_depth : ℕ
max_delegation_depth = 5

pub record Evaluation : Type 0 where
  pub allowed : Bool
  pub approval_required : Bool
  pub denied_scopes : List String
  pub notes : List PolicyNote

abbrev note : PolicyNote → Evaluation → Evaluation
note n v = record v { notes = v.notes ++ (n ∷ []) }

abbrev deny : PolicyNote → Evaluation → Evaluation
deny n v = record v { allowed = false; notes = v.notes ++ (n ∷ []) }

-- The privilege check of step 0, made only if the scopes passed and an originator is named.
check_originator : IntentEnvelope → CapabilityDescriptor → ProvenanceBlock → Evaluation → Evaluation
check_originator e c p v =
    let declared = e.trust.declared_trust_level in
    let minimum = c.minimum_trust_tier in
    if v.allowed && is_some p.originator
    then (if ltb (trust_order declared) (trust_order minimum)
        then deny (originator_trust_low declared minimum) v
        else note (originator_trust_met declared minimum) v)
    else v

-- Step 0 up to the privilege check.
provenance_notes : IntentEnvelope → CapabilityDescriptor → ProvenanceBlock → Evaluation → Evaluation
unfolding compute_effective_scopes check_scopes
provenance_notes e c p v =
    let missing =
      check_scopes c.required_scopes (compute_effective_scopes e.actor.scopes p.authority_scope) in
    if not (is_empty missing)
    then record (deny (effective_scopes_missing missing) v) { denied_scopes = missing }
    else if not (is_empty c.required_scopes)
    then note (effective_scopes_present c.required_scopes) v
    else note provenance_scope_skipped v

-- Step 0.
pub check_provenance_block : IntentEnvelope → CapabilityDescriptor → Evaluation → Evaluation
unfolding check_originator provenance_notes
check_provenance_block e c v = elim e.provenance [
  | none ↦ note no_provenance v
  | some p ↦ check_originator e c p (provenance_notes e c p v)
]

-- The scopes that step 1 checks against.
unfoldable pub scopes_to_check : IntentEnvelope → List String
unfolding compute_effective_scopes
scopes_to_check e = elim e.provenance [
  | none ↦ e.actor.scopes
  | some p ↦ compute_effective_scopes e.actor.scopes p.authority_scope
]

-- Step 1.
pub check_required_scopes : IntentEnvelope → CapabilityDescriptor → Evaluation → Evaluation
unfolding scopes_to_check check_scopes
check_required_scopes e c v =
    let missing = check_scopes c.required_scopes (scopes_to_check e) in
    if not v.allowed
    then v
    else if not (is_empty missing)
    then record (deny (scopes_missing missing) v) {
      denied_scopes = if is_empty v.denied_scopes then missing else v.denied_scopes;
    }
    else if not (is_empty c.required_scopes)
    then note (scopes_granted c.required_scopes) v
    else note no_scopes_required v

-- Step 2.
pub check_approval : Bool → CapabilityDescriptor → Evaluation → Evaluation
unfolding requires_approval
check_approval enforce c v =
    if not v.allowed
    then v
    else if requires_approval c.risk_level c.operation_class enforce
    then note (risk_approval_required c.risk_level c.operation_class)
        (record v { approval_required = true })
    else note (risk_approval_not_required c.risk_level c.operation_class) v

-- Step 3.
pub check_sensitivity : IntentEnvelope → CapabilityDescriptor → Evaluation → Evaluation
unfolding is_denied_by_risk
check_sensitivity e c v =
    let sensitivity = e.constraints.data_sensitivity in
    if not v.allowed
    then v
    else if is_denied_by_risk c.risk_level sensitivity
    then deny (sensitivity_denied c.risk_level sensitivity) v
    else note (sensitivity_compatible c.risk_level sensitivity) v

-- Step 4, which looks at the chain of the trust block.
pub check_delegation : IntentEnvelope → Evaluation → Evaluation
check_delegation e v =
    let depth = length e.trust.delegation_chain in
    if ltb max_delegation_depth depth
    then deny (delegation_too_deep depth) v
    else note (delegation_within_limits depth) v

-- Step 5.
pub check_override : CapabilityDescriptor → Evaluation → Evaluation
check_override c v =
    if v.allowed && c.constraints.requires_human_approval
    then note capability_requires_approval (record v { approval_required = true })
    else v

pub run_steps : Bool → IntentEnvelope → CapabilityDescriptor → Evaluation → Evaluation
run_steps enforce e c v = check_override c (
    check_delegation e (
      check_sensitivity e c
        (check_approval enforce c (check_required_scopes e c (check_provenance_block e c v)))))

abbrev pub start_evaluation : Evaluation
start_evaluation = record {
  allowed = true;
  approval_required = false;
  denied_scopes = [];
  notes = [];
}

abbrev pub summary_of : Evaluation → PolicyDecisionSummary
summary_of v = record {
  allowed = v.allowed;
  requires_approval = v.approval_required;
  denied_scopes = v.denied_scopes;
  policy_notes = v.notes;
  reason_code = "";
  conditions = [];
  required_approvals = [];
  allowed_capabilities = [];
}

-- `evaluate`; the flag is `_enforce_approval`.
unfoldable pub evaluate : Bool → IntentEnvelope → NegotiationResult → NegotiationResult
unfolding run_steps check_provenance_block check_required_scopes check_approval check_sensitivity
    check_delegation check_override
evaluate enforce e n = elim n.selected_capability [
  | none ↦ n
  | some c ↦ record n { policy_decision = summary_of (run_steps enforce e c start_evaluation) }
]
