-- ===== src/Broker/Handlers/Audit.antt =====
-- The audit record of `process_intent` agrees with what the broker returns.
use mathlib.Core.Path.{subst}
use semantic_intent_protocol.Base.{
  inr, none, ◌&&◌, ◌∙◌, List, arith, if-false, sym, Bool-cases, ap, if-true, ◌||◌, ◌⊎◌, false, inl,
  ◌≢◌, Bool, Option, some, true, String, ◌≡◌, refl,
}
use semantic_intent_protocol.Broker.Handlers.{
  process_intent, BrokerResult, ask_clarification, decide, deny_by_policy, refuse_invalid,
  reject_plan, Draws, accept_plan, plan_and_record, BrokerAudit,
}
use semantic_intent_protocol.Broker.Handlers.Laws.{
  plan_and_record-ok, plan_and_record-err, process_intent-invalid, Result-cases, decide-settled,
  decide-asks, plan_and_record-denied, process_intent-valid, selected-evaluate,
}
use semantic_intent_protocol.Envelope.Enums.{binding_type_value}
use semantic_intent_protocol.Envelope.Models.{IntentEnvelope}
use semantic_intent_protocol.Envelope.Validator.{ValidationError, validate_envelope}
use semantic_intent_protocol.Negotiation.Matcher.{match}
use semantic_intent_protocol.Negotiation.Planner.{PlanError, plan, ExecutionPlan}
use semantic_intent_protocol.Negotiation.Planner.Laws.{plan-IsPlanFor, IsPlanFor}
use semantic_intent_protocol.Negotiation.Results.{NegotiationResult}
use semantic_intent_protocol.Observability.Audit.{OutcomeSummary, ActionTaken}
use semantic_intent_protocol.Policy.Engine.{evaluate}
use semantic_intent_protocol.Policy.Engine.Approval.{requires_approval-evaluate}
use semantic_intent_protocol.Policy.Rules.{in_approval_combinations}
use semantic_intent_protocol.Registry.Storage.{CapabilityStore}
use mathlib.Core.Option

-- What the record says of a plan that waits for approval, or does not.
abbrev pub RecordsPlan : Bool → BrokerAudit → Type 0
RecordsPlan true a =
    (a.action_taken ≡ ActionTaken.approval_requested)
    × (a.outcome_summary ≡ OutcomeSummary.pending_approval)
    × (a.approval_state ≡ "pending")
RecordsPlan false a =
    (a.action_taken ≡ ActionTaken.plan_created)
    × (a.outcome_summary ≡ OutcomeSummary.success)
    × (a.approval_state ≡ "not_required")

-- A plan, if there is one, is recorded with its capability, its binding and its need of approval;
-- without a plan the record neither claims success nor waits for approval.
abbrev pub AgreesWith : Option ExecutionPlan → BrokerAudit → Type 0
AgreesWith (some p) a =
    (a.policy_allowed ≡ true)
    × (a.selected_capability_id ≡ some p.selected_capability.capability_id)
    × (a.selected_binding ≡ some (binding_type_value p.selected_binding))
    × RecordsPlan p.approval_required a
AgreesWith none a =
    (a.outcome_summary ≢ OutcomeSummary.success)
    × (a.outcome_summary ≢ OutcomeSummary.pending_approval)
    × (a.approval_state ≡ "not_required")

RecordsPlan-accept_plan :
    (d : Draws) (e : IntentEnvelope) (n : NegotiationResult) (p : ExecutionPlan) (waits : Bool)
    → n.policy_decision.requires_approval ≡ waits
    → RecordsPlan waits (accept_plan d e n p).audit_record
unfolding accept_plan
RecordsPlan-accept_plan d e n p true h = (
  if-true n.policy_decision.requires_approval _ _ h,
  if-true n.policy_decision.requires_approval _ _ h,
  if-true n.policy_decision.requires_approval _ _ h,
)
RecordsPlan-accept_plan d e n p false h = (
  if-false n.policy_decision.requires_approval _ _ h,
  if-false n.policy_decision.requires_approval _ _ h,
  if-false n.policy_decision.requires_approval _ _ h,
)

accept_plan-AgreesWith :
    (d : Draws) (e : IntentEnvelope) (n : NegotiationResult) (p : ExecutionPlan)
    → IsPlanFor e n p
    → n.policy_decision.requires_approval ≡ p.approval_required
    → AgreesWith (accept_plan d e n p).execution_plan (accept_plan d e n p).audit_record
unfolding accept_plan
accept_plan-AgreesWith d e n p made same = (
  refl,
  ap (λ o. Option.map (λ c. c.capability_id) o) made.capability,
  ap (λ o. Option.map binding_type_value o) made.binding,
  RecordsPlan-accept_plan d e n p p.approval_required same,
)

outcome_distinct :
    {o : OutcomeSummary}
    → (o ≡ OutcomeSummary.error)
      ⊎ ((o ≡ OutcomeSummary.denied) ⊎ (o ≡ OutcomeSummary.needs_clarification))
    → (o ≢ OutcomeSummary.success) × (o ≢ OutcomeSummary.pending_approval)
outcome_distinct (inl h) = (λ k. cc, λ k. cc)
outcome_distinct (inr (inl h)) = (λ k. cc, λ k. cc)
outcome_distinct (inr (inr h)) = (λ k. cc, λ k. cc)

-- The agreement of a whole result, to carry it along an equation.
abbrev pub Agrees : BrokerResult → Type 0
Agrees r = AgreesWith r.execution_plan r.audit_record

Agrees-refuse_invalid :
    (d : Draws) (e : IntentEnvelope) (errors : List ValidationError)
    → Agrees (refuse_invalid d e errors)
unfolding refuse_invalid
Agrees-refuse_invalid d e errors = let (a, b) = outcome_distinct (inl refl) in (a, b, refl)

Agrees-ask_clarification :
    (d : Draws) (e : IntentEnvelope) (n : NegotiationResult) → Agrees (ask_clarification d e n)
unfolding ask_clarification
Agrees-ask_clarification d e n = let (a, b) = outcome_distinct (inr (inr refl)) in (a, b, refl)

Agrees-deny_by_policy :
    (d : Draws) (e : IntentEnvelope) (n : NegotiationResult) → Agrees (deny_by_policy d e n)
unfolding deny_by_policy
Agrees-deny_by_policy d e n = let (a, b) = outcome_distinct (inr (inl refl)) in (a, b, refl)

Agrees-reject_plan :
    (d : Draws) (e : IntentEnvelope) (n : NegotiationResult) (why : PlanError)
    → Agrees (reject_plan d e n why)
unfolding reject_plan
Agrees-reject_plan d e n why = let (a, b) = outcome_distinct (inl refl) in (a, b, refl)

Agrees-plan_and_record :
    (d : Draws) (e : IntentEnvelope) (n : NegotiationResult)
    → ((p : ExecutionPlan)
        → n.policy_decision.allowed ≡ true
        → IsPlanFor e n p
        → n.policy_decision.requires_approval ≡ p.approval_required)
    → Agrees (plan_and_record d e n)
Agrees-plan_and_record d e n same = elim (Bool-cases n.policy_decision.allowed) [
  | inr denied ↦
      subst Agrees (sym (plan_and_record-denied d e n denied)) (Agrees-deny_by_policy d e n)
  | inl allowed ↦ elim (Result-cases (plan d.plan_id e n)) [
    | inl (why, k) ↦
        subst Agrees (sym (plan_and_record-err d e n why allowed k)) (Agrees-reject_plan d e n why)
    | inr (p, k) ↦
        let made = plan-IsPlanFor d.plan_id e n p k in
        subst Agrees (sym (plan_and_record-ok d e n p allowed k))
          (accept_plan-AgreesWith d e n p made (same p allowed made))
  ]
]

or_absorb : (r enforced forced : Bool) → r ≡ (enforced || forced) → r ≡ (r || forced)
or_absorb r enforced forced h = ground arith

-- The plan waits for approval exactly when the policy engine says so: what the capability always
-- asks for is already in the decision.
pub approval_settled :
    (enforce : Bool) (e : IntentEnvelope) (n : NegotiationResult) (p : ExecutionPlan)
    → (evaluate enforce e n).policy_decision.allowed ≡ true
    → IsPlanFor e (evaluate enforce e n) p
    → (evaluate enforce e n).policy_decision.requires_approval ≡ p.approval_required
approval_settled enforce e n p allowed made =
    let c = p.selected_capability in
    let chosen = sym (selected-evaluate enforce e n).0 ∙ made.capability in
    or_absorb (evaluate enforce e n).policy_decision.requires_approval
      (enforce && in_approval_combinations c.risk_level c.operation_class)
      c.constraints.requires_human_approval
      (requires_approval-evaluate enforce e n c chosen allowed)
    ∙ sym made.approval

Agrees-decide :
    (enforce : Bool) (d : Draws) (e : IntentEnvelope) (n : NegotiationResult)
    → Agrees (decide enforce d e n)
Agrees-decide enforce d e n = elim (Bool-cases n.requires_clarification) [
  | inl asks ↦ subst Agrees (sym (decide-asks d e n enforce asks)) (Agrees-ask_clarification d e n)
  | inr settled ↦
      subst Agrees (sym (decide-settled d e n enforce settled))
        (Agrees-plan_and_record d e (evaluate enforce e n) (approval_settled enforce e n))
]

-- The audit record of `process_intent` agrees with the plan it returns: with a plan, the record
-- names the plan's capability and binding, says that policy allowed it, and waits for approval
-- exactly when the plan does; without a plan, it claims neither success nor a pending approval.
pub process_intent-AgreesWith :
    (lower : String → String) (enforce : Bool) (s : CapabilityStore) (d : Draws)
    (e : IntentEnvelope)
    → AgreesWith
        (process_intent lower enforce s d e).execution_plan
        (process_intent lower enforce s d e).audit_record
process_intent-AgreesWith lower enforce s d e =
    elim (Bool-cases (validate_envelope d.checked_at e).valid) [
      | inl valid ↦
          subst Agrees (sym (process_intent-valid lower enforce s d e valid))
            (Agrees-decide enforce d e (match lower s e))
      | inr invalid ↦
          subst Agrees (sym (process_intent-invalid lower enforce s d e invalid))
            (Agrees-refuse_invalid d e (validate_envelope d.checked_at e).errors)
    ]
