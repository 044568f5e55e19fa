-- ===== src/Policy/Engine/Approval.antt =====
-- When `evaluate` asks for approval.
use semantic_intent_protocol.Base.{
  sym, ◌∙◌, ap, true, string_eq, ◌||◌, arith, ◌&&◌, Bool, some, ◌≡◌,
}
use semantic_intent_protocol.Envelope.Models.{IntentEnvelope}
use semantic_intent_protocol.Negotiation.Results.{NegotiationResult}
use semantic_intent_protocol.Policy.Engine.{
  start_evaluation, check_provenance_block, evaluate, Evaluation, check_approval, check_delegation,
  check_override, check_required_scopes, check_sensitivity, run_steps,
}
use semantic_intent_protocol.Policy.Engine.Permitted.{
  allowed-check_approval, allowed-check_sensitivity, allowed-check_delegation,
  allowed-check_override, policy-evaluate,
}
use semantic_intent_protocol.Policy.Rules.{requires_approval, in_approval_combinations}
use semantic_intent_protocol.Registry.Models.{CapabilityDescriptor}

module _ (e : IntentEnvelope) (c : CapabilityDescriptor) where
  approval-check_provenance_block :
      (v : Evaluation) → (check_provenance_block e c v).approval_required ≡ v.approval_required
  unfolding check_provenance_block
  approval-check_provenance_block v = ground arith

  approval-check_required_scopes :
      (v : Evaluation) → (check_required_scopes e c v).approval_required ≡ v.approval_required
  unfolding check_required_scopes
  approval-check_required_scopes v = ground arith

  approval-check_approval :
      (enforce : Bool) (v : Evaluation)
      → v.allowed ≡ true
      → (check_approval enforce c v).approval_required
        ≡ (requires_approval c.risk_level c.operation_class enforce || v.approval_required)
  unfolding check_approval
  approval-check_approval enforce v h = rw h (ground arith)

  approval-check_sensitivity :
      (v : Evaluation) → (check_sensitivity e c v).approval_required ≡ v.approval_required
  unfolding check_sensitivity
  approval-check_sensitivity v = ground arith

  approval-check_delegation :
      (v : Evaluation) → (check_delegation e v).approval_required ≡ v.approval_required
  unfolding check_delegation
  approval-check_delegation v = ground arith

  approval-check_override :
      (v : Evaluation)
      → v.allowed ≡ true
      → (check_override c v).approval_required
        ≡ (v.approval_required || c.constraints.requires_human_approval)
  unfolding check_override
  approval-check_override v h = rw h (ground arith)

  approval-run_steps :
      (enforce : Bool)
      → (run_steps enforce e c start_evaluation).allowed ≡ true
      → (run_steps enforce e c start_evaluation).approval_required ≡ (
          requires_approval c.risk_level c.operation_class enforce
          || c.constraints.requires_human_approval)
  unfolding run_steps
  approval-run_steps enforce a =
      let v1 = check_provenance_block e c start_evaluation in
      let v2 = check_required_scopes e c v1 in
      let v3 = check_approval enforce c v2 in
      let v4 = check_sensitivity e c v3 in
      let v5 = check_delegation e v4 in
      let a5 : v5.allowed ≡ true = sym (allowed-check_override e c v5) ∙ a in
      let a4 : v4.allowed ≡ true = ground (arith, allowed-check_delegation e c v4) in
      let a3 : v3.allowed ≡ true = ground (arith, allowed-check_sensitivity e c v3) in
      let a2 : v2.allowed ≡ true = sym (allowed-check_approval e c enforce v2) ∙ a3 in
      ground (
        arith,
        approval-check_override v5 a5,
        approval-check_delegation v4,
        approval-check_sensitivity v3,
        approval-check_approval enforce v2 a2,
        approval-check_required_scopes v1,
        approval-check_provenance_block start_evaluation,
      )

-- An allowed intent needs approval exactly when the risk table says so and is enforced, or the
-- capability always asks for it.
pub requires_approval-evaluate :
    (enforce : Bool) (e : IntentEnvelope) (n : NegotiationResult) (c : CapabilityDescriptor)
    → n.selected_capability ≡ some c
    → (evaluate enforce e n).policy_decision.allowed ≡ true
    → (evaluate enforce e n).policy_decision.requires_approval ≡ (
        (enforce && in_approval_combinations c.risk_level c.operation_class)
        || c.constraints.requires_human_approval)
unfolding requires_approval
requires_approval-evaluate enforce e n c h a =
    ap (λ d. d.requires_approval) (policy-evaluate enforce e n c h)
    ∙ approval-run_steps e c enforce
        (sym (ap (λ d. d.allowed) (policy-evaluate enforce e n c h)) ∙ a)
    ∙ ground arith
