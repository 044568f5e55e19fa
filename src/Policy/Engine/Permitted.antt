-- ===== src/Policy/Engine/Permitted.antt =====
-- When `evaluate` allows an intent.
use semantic_intent_protocol.Base.{
  none, false, sym, ◌∙◌, ap, true, string_eq, In→contains, keep_if-In, contains→In, contains,
  In-keep_if, ◌↔◌, leb, arith, ◌&&◌, length, ltb, is_empty, not, ◌≤◌, Bool, Option, List, some,
  String, ◌≡◌, refl,
}
use semantic_intent_protocol.Envelope.Enums.{DataSensitivity, trust_order}
use semantic_intent_protocol.Envelope.Models.{ProvenanceBlock, IntentEnvelope}
use semantic_intent_protocol.Envelope.Validator.Accepted.{IsSubset}
use semantic_intent_protocol.Negotiation.Results.{NegotiationResult}
use semantic_intent_protocol.Policy.Engine.{
  start_evaluation, summary_of, provenance_notes, check_provenance_block, evaluate, scopes_to_check,
  Evaluation, check_approval, check_delegation, check_originator, check_override,
  check_required_scopes, check_sensitivity, compute_effective_scopes, run_steps,
}
use semantic_intent_protocol.Policy.Rules.{check_scopes-empty, is_denied_by_risk, check_scopes}
use semantic_intent_protocol.Registry.Models.{RiskLevel, CapabilityDescriptor}

abbrev pub IsGrantSufficient : List String → Option (List String) → Type 0
IsGrantSufficient required none = Unit
IsGrantSufficient required (some scopes) = IsSubset required scopes

abbrev pub IsOriginatorTrusted : IntentEnvelope → CapabilityDescriptor → Option String → Type 0
IsOriginatorTrusted e c none = Unit
IsOriginatorTrusted e c (some o) =
    trust_order c.minimum_trust_tier ≤ trust_order e.trust.declared_trust_level

-- What the provenance block demands: the delegated scopes suffice, and a named originator's
-- declared trust reaches the capability's tier.
abbrev pub IsDelegationPermitted :
    IntentEnvelope → CapabilityDescriptor → Option ProvenanceBlock → Type 0
IsDelegationPermitted e c none = Unit
IsDelegationPermitted e c (some p) =
    IsGrantSufficient c.required_scopes p.authority_scope × IsOriginatorTrusted e c p.originator

-- What an intent has to satisfy for the capability to be allowed.
pub record IsPermitted (e : IntentEnvelope) (c : CapabilityDescriptor) : Type 0 where
  pub scopes : IsSubset c.required_scopes e.actor.scopes
  pub delegation : IsDelegationPermitted e c e.provenance
  pub risk :
      (c.risk_level ≡ RiskLevel.critical)
      → (e.constraints.data_sensitivity ≡ DataSensitivity.restricted)
      → ⊥
  pub depth : length e.trust.delegation_chain ≤ 5

-- The tests of the steps, as one Boolean each.
abbrev originator_passes : IntentEnvelope → CapabilityDescriptor → Option String → Bool
originator_passes e c none = true
originator_passes e c (some o) =
    not (ltb (trust_order e.trust.declared_trust_level) (trust_order c.minimum_trust_tier))

abbrev provenance_passes : IntentEnvelope → CapabilityDescriptor → Option ProvenanceBlock → Bool
provenance_passes e c none = true
provenance_passes e c (some p) =
    is_empty
      (check_scopes c.required_scopes (compute_effective_scopes e.actor.scopes p.authority_scope))
    && originator_passes e c p.originator

module _ (e : IntentEnvelope) (c : CapabilityDescriptor) where
  allowed-check_originator :
      (p : ProvenanceBlock) (v : Evaluation)
      → (check_originator e c p v).allowed ≡ (v.allowed && originator_passes e c p.originator)
  unfolding check_originator
  allowed-check_originator p v = ground arith

  allowed-check_provenance_block :
      (o : Option ProvenanceBlock) (v : Evaluation)
      → e.provenance ≡ o
      → (check_provenance_block e c v).allowed ≡ (v.allowed && provenance_passes e c o)
  unfolding check_provenance_block
  allowed-check_provenance_block none v h = ground arith
  allowed-check_provenance_block (some p) v h =
      ground (arith, allowed-check_originator p (provenance_notes e c p v))

  allowed-check_required_scopes :
      (v : Evaluation)
      → (check_required_scopes e c v).allowed
        ≡ (v.allowed && is_empty (check_scopes c.required_scopes (scopes_to_check e)))
  unfolding check_required_scopes
  allowed-check_required_scopes v = ground arith

  pub allowed-check_approval :
      (enforce : Bool) (v : Evaluation) → (check_approval enforce c v).allowed ≡ v.allowed
  unfolding check_approval
  allowed-check_approval enforce v = ground arith

  pub allowed-check_sensitivity :
      (v : Evaluation)
      → (check_sensitivity e c v).allowed
        ≡ (v.allowed && not (is_denied_by_risk c.risk_level e.constraints.data_sensitivity))
  unfolding check_sensitivity
  allowed-check_sensitivity v = ground arith

  pub allowed-check_delegation :
      (v : Evaluation)
      → (check_delegation e v).allowed ≡ (v.allowed && leb (length e.trust.delegation_chain) 5)
  unfolding check_delegation
  allowed-check_delegation v = ground arith

  pub allowed-check_override : (v : Evaluation) → (check_override c v).allowed ≡ v.allowed
  unfolding check_override
  allowed-check_override v = ground arith

  -- All steps together.
  allowed-run_steps :
      (enforce : Bool) (v : Evaluation)
      → (run_steps enforce e c v).allowed ≡ (
          (((v.allowed && provenance_passes e c e.provenance)
              && is_empty (check_scopes c.required_scopes (scopes_to_check e)))
            && not (is_denied_by_risk c.risk_level e.constraints.data_sensitivity))
          && leb (length e.trust.delegation_chain) 5)
  unfolding run_steps
  allowed-run_steps enforce v = simp (
    allowed-check_override,
    allowed-check_delegation,
    allowed-check_sensitivity,
    allowed-check_approval,
    allowed-check_required_scopes,
    allowed-check_provenance_block e.provenance _ refl,
  )

  effective_scopes-IsSubset :
      (required held : List String) (o : Option (List String))
      → IsSubset required (compute_effective_scopes held o)
        ↔ (IsSubset required held × IsGrantSufficient required o)
  unfolding compute_effective_scopes
  effective_scopes-IsSubset required held none = (λ h. (h, tt), λ h. h.0)
  effective_scopes-IsSubset required held (some granted) = (
    λ h. (
      λ a m. (In-keep_if (contains granted) a held (h a m)).0,
      λ a m. contains→In granted a (In-keep_if (contains granted) a held (h a m)).1,
    ),
    λ (s, g) a m. keep_if-In (contains granted) a held (s a m) (In→contains granted a (g a m)),
  )

  originator_passes-IsOriginatorTrusted :
      (o : Option String) → (originator_passes e c o ≡ true) ↔ IsOriginatorTrusted e c o
  originator_passes-IsOriginatorTrusted none = (λ h. tt, λ h. refl)
  originator_passes-IsOriginatorTrusted (some o) = ground arith

  -- The tests of the provenance block and of the scopes, together.
  pub scopes_pass :
      (o : Option ProvenanceBlock)
      → e.provenance ≡ o
      → ((provenance_passes e c o && is_empty (check_scopes c.required_scopes (scopes_to_check e)))
          ≡ true)
        ↔ (IsSubset c.required_scopes e.actor.scopes × IsDelegationPermitted e c o)
  unfolding scopes_to_check
  scopes_pass none h =
      let (to, from) = check_scopes-empty c.required_scopes e.actor.scopes in
      (λ t. (to (ground arith), tt), λ (s, u). ground (arith, from s))
  scopes_pass (some p) h =
      let held = compute_effective_scopes e.actor.scopes p.authority_scope in
      let (to, from) = check_scopes-empty c.required_scopes held in
      let (narrow, widen) =
        effective_scopes-IsSubset c.required_scopes e.actor.scopes p.authority_scope in
      let (trusted, passes) = originator_passes-IsOriginatorTrusted p.originator in
      (
        λ t. let (s, g) = narrow (to (ground arith)) in (s, (g, trusted (ground arith))),
        λ (s, (g, o)). ground (arith, from (widen (s, g)), passes o),
      )

pub policy-evaluate :
    (enforce : Bool) (e : IntentEnvelope) (n : NegotiationResult) (c : CapabilityDescriptor)
    → n.selected_capability ≡ some c
    → (evaluate enforce e n).policy_decision ≡ summary_of (run_steps enforce e c start_evaluation)
unfolding evaluate
policy-evaluate enforce e n c h = rw h

pub denied_by_risk_iff :
    (r : RiskLevel) (s : DataSensitivity)
    → (is_denied_by_risk r s ≡ false)
      ↔ (r ≡ RiskLevel.critical → s ≡ DataSensitivity.restricted → ⊥)
unfolding is_denied_by_risk
denied_by_risk_iff RiskLevel.critical DataSensitivity.restricted =
    (λ h. cc, λ h. absurd (h refl refl))
denied_by_risk_iff r s = ground arith

allowed-IsPermitted :
    (enforce : Bool) (e : IntentEnvelope) (c : CapabilityDescriptor)
    → ((run_steps enforce e c start_evaluation).allowed ≡ true) ↔ IsPermitted e c
allowed-IsPermitted enforce e c =
    let steps = allowed-run_steps e c enforce start_evaluation in
    let (pass, passed) = scopes_pass e c e.provenance refl in
    let (safe, unsafe) = denied_by_risk_iff c.risk_level e.constraints.data_sensitivity in
    (
      λ h.
          let (s, d) = pass (ground (arith, steps)) in
          record {
            scopes = s;
            delegation = d;
            risk = safe (ground (arith, steps));
            depth = ground (arith, steps);
          },
      λ w. ground (arith, steps, passed (w.scopes, w.delegation), unsafe w.risk, w.depth),
    )

-- The engine allows an intent for its selected capability exactly when the actor's scopes, the
-- delegated ones and, for a named originator, the declared trust suffice, critical risk does not
-- meet restricted data, and the chain of the trust block has at most 5 members. A delegation that
-- has expired makes no difference to it.
pub evaluate-IsPermitted :
    (enforce : Bool) (e : IntentEnvelope) (n : NegotiationResult) (c : CapabilityDescriptor)
    → n.selected_capability ≡ some c
    → ((evaluate enforce e n).policy_decision.allowed ≡ true) ↔ IsPermitted e c
evaluate-IsPermitted enforce e n c h =
    let (to, from) = allowed-IsPermitted enforce e c in
    let same = ap (λ d. d.allowed) (policy-evaluate enforce e n c h) in
    (λ a. to (sym same ∙ a), λ w. same ∙ from w)
