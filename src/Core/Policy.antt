-- ===== src/Core/Policy.antt =====
-- `CanonicalPolicyEngine` (sip/core/policy_engine.py).
-- The trust level of an actor is never `None`, and nothing that is evaluated raises, so the two
-- branches for that are left out.
pub mod Candidates
pub mod Admitted
use semantic_intent_protocol.Base.{
  [], false, Value, Dict, ◌∷◌, ◌||◌, ltb, not, is_empty, ◌&&◌, ◌++◌, ◌<>◌, String, if◌then◌else◌,
  is_blank, length, Bool, List, ℕ, some, true, none,
}
use semantic_intent_protocol.Core.Intent.{NormalizedIntent}
use semantic_intent_protocol.Envelope.Enums.{
  DataSensitivity, OperationClass, trust_order, TrustLevel,
}
use semantic_intent_protocol.Policy.Interface.{
  always_needs_approval, sensitivity_accepted, sensitivity_refused, trust_reached,
  no_approval_needed, approval_needed, candidates_to_evaluate, trust_below, chain_too_long,
  scopes_present, allowed_after_filtering, no_scopes_needed, provenance_missing, deny_result,
  excluded, scopes_lacking, PolicyReason, ReasonCode, PolicyResult, CanonicalNote,
}
use semantic_intent_protocol.Policy.Rules.{is_denied_by_risk, requires_approval, check_scopes}
use semantic_intent_protocol.Registry.Models.{RiskLevel, CapabilityDescriptor}

-- What `_evaluate_capability` returns.
pub record CapabilityVerdict : Type 0 where
  pub notes : List CanonicalNote
  pub allowed : Bool
  pub approval : Bool

pub evaluate_capability : Bool → NormalizedIntent → CapabilityDescriptor → CapabilityVerdict
unfolding check_scopes requires_approval is_denied_by_risk
evaluate_capability enforce i c =
    let missing = check_scopes c.required_scopes i.actor.scopes in
    let id = c.capability_id in
    if not (is_empty missing)
    then record { notes = scopes_lacking id missing ∷ []; allowed = false; approval = false }
    else (let n1 = if is_empty c.required_scopes then no_scopes_needed id else scopes_present id in
        if ltb (trust_order i.actor.trust_level) (trust_order c.minimum_trust_tier)
        then record {
          notes = n1 ∷ trust_below id c.minimum_trust_tier ∷ [];
          allowed = false;
          approval = false;
        }
        else (let waits = requires_approval c.risk_level c.operation_class enforce in
            let n2 =
              if waits
              then approval_needed id c.risk_level c.operation_class
              else no_approval_needed id c.risk_level c.operation_class in
            let notes = n1 ∷ trust_reached id c.minimum_trust_tier ∷ n2 ∷ [] in
            if is_denied_by_risk c.risk_level i.constraints.data_sensitivity
            then record {
              notes =
                  notes
                  ++ (sensitivity_refused id c.risk_level i.constraints.data_sensitivity ∷ []);
              allowed = false;
              approval = waits;
            }
            else record {
              notes =
                  notes
                  ++ (sensitivity_accepted id c.risk_level i.constraints.data_sensitivity
                      ∷ (if c.constraints.requires_human_approval
                          then always_needs_approval id ∷ []
                          else []));
              allowed = true;
              approval = waits || c.constraints.requires_human_approval;
            }))

-- What the loop over the candidates collects.
pub record Survey : Type 0 where
  pub notes : List CanonicalNote
  pub admitted : List CapabilityDescriptor
  pub approvals : List String

pub approval_name : CapabilityDescriptor → String
approval_name c = "human_approval_for_" <> c.capability_id

add_verdict : CapabilityDescriptor → CapabilityVerdict → Survey → Survey
unfolding approval_name
add_verdict c v rest =
    if v.allowed
    then record {
      notes = v.notes ++ rest.notes;
      admitted = c ∷ rest.admitted;
      approvals = if v.approval then approval_name c ∷ rest.approvals else rest.approvals;
    }
    else record {
      notes = v.notes ++ (excluded c.capability_id ∷ rest.notes);
      admitted = rest.admitted;
      approvals = rest.approvals;
    }

pub survey : Bool → NormalizedIntent → List CapabilityDescriptor → Survey
unfolding evaluate_capability add_verdict
survey enforce i [] = record { notes = []; admitted = []; approvals = [] }
survey enforce i (c ∷ cs) = add_verdict c (evaluate_capability enforce i c) (survey enforce i cs)

-- `not originator`
abbrev pub lacks_originator : NormalizedIntent → Bool
lacks_originator i = elim i.actor.originator [ none ↦ true | some o ↦ is_blank o ]

-- The settings of the engine: `enforce_approval_policy` and `require_provenance`.
pub record CanonicalSettings : Type 0 where
  pub enforce_approval : Bool
  pub require_provenance : Bool

conclude : List CanonicalNote → Survey → PolicyResult
conclude notes s =
    if is_empty s.admitted
    then deny_result ReasonCode.no_allowed_capabilities PolicyReason.none_passed (notes ++ s.notes)
    else record {
      allowed = true;
      reason_code = ReasonCode.allowed;
      reason = PolicyReason.evaluation_passed;
      conditions =
          if is_empty s.approvals
          then []
          else "Human approval required before execution may proceed." ∷ [];
      required_approvals = s.approvals;
      allowed_capabilities = s.admitted;
      evaluation_notes = (notes ++ s.notes) ++ (allowed_after_filtering (length s.admitted) ∷ []);
      metadata = [];
    }

unfoldable pub evaluate_internal :
    CanonicalSettings → NormalizedIntent → List CapabilityDescriptor → PolicyResult
unfolding survey conclude
evaluate_internal w i cs =
    let depth = length i.actor.delegation_chain in
    if w.require_provenance && lacks_originator i
    then deny_result ReasonCode.missing_provenance PolicyReason.originator_missing
        (provenance_missing ∷ [])
    else if ltb 5 depth
    then deny_result ReasonCode.delegation_chain_too_long (PolicyReason.chain_exceeds depth)
        (chain_too_long depth ∷ [])
    else conclude
        (CanonicalNote.actor_trust i.actor.actor_id i.actor.trust_level
          ∷ candidates_to_evaluate (length cs)
          ∷ [])
        (survey w.enforce_approval i cs)
