-- ===== src/Broker/Handlers/Approval.antt =====
-- When a plan of `process_intent` (sip/broker/handlers.py) needs approval.
use semantic_intent_protocol.Base.{
  arith, ap, true_ne_false, ◌⊎◌, ◌↔◌, true, false, inl, inr, refl, ◌∙◌, sym, ◌||◌, ◌&&◌, String,
  Bool, ◌≡◌, some,
}
use semantic_intent_protocol.Broker.Handlers.{process_intent, Draws}
use semantic_intent_protocol.Broker.Handlers.Audit.{approval_settled}
use semantic_intent_protocol.Broker.Handlers.Laws.{
  selected-evaluate, decide-some, process_intent-some,
}
use semantic_intent_protocol.Envelope.Enums.{OperationClass}
use semantic_intent_protocol.Envelope.Models.{IntentEnvelope}
use semantic_intent_protocol.Negotiation.Matcher.{match}
use semantic_intent_protocol.Negotiation.Planner.{ExecutionPlan}
use semantic_intent_protocol.Negotiation.Planner.Laws.{plan-IsPlanFor}
use semantic_intent_protocol.Policy.Engine.{evaluate}
use semantic_intent_protocol.Policy.Engine.Approval.{requires_approval-evaluate}
use semantic_intent_protocol.Policy.Rules.{in_approval_combinations}
use semantic_intent_protocol.Registry.Models.{RiskLevel}
use semantic_intent_protocol.Registry.Storage.{CapabilityStore}

-- The operations that wait for approval: a write, an execution or a delegation of high or critical
-- risk, and a read of critical risk.
abbrev pub IsSensitive : RiskLevel → OperationClass → Type 0
IsSensitive risk op =
    (((risk ≡ RiskLevel.high) ⊎ (risk ≡ RiskLevel.critical))
      × ((op ≡ OperationClass.write)
          ⊎ (op ≡ OperationClass.execute)
          ⊎ (op ≡ OperationClass.delegate)))
    ⊎ ((risk ≡ RiskLevel.critical) × (op ≡ OperationClass.read))

sensitive :
    (risk : RiskLevel) (op : OperationClass)
    → in_approval_combinations risk op ≡ true
    → IsSensitive risk op
sensitive RiskLevel.low op h = absurd (true_ne_false (sym h))
sensitive RiskLevel.medium op h = absurd (true_ne_false (sym h))
sensitive RiskLevel.high OperationClass.write h = inl (inl refl, inl refl)
sensitive RiskLevel.high OperationClass.execute h = inl (inl refl, inr (inl refl))
sensitive RiskLevel.high OperationClass.delegate h = inl (inl refl, inr (inr refl))
sensitive RiskLevel.high OperationClass.read h = absurd (true_ne_false (sym h))
sensitive RiskLevel.high OperationClass.retrieve h = absurd (true_ne_false (sym h))
sensitive RiskLevel.high OperationClass.analyze h = absurd (true_ne_false (sym h))
sensitive RiskLevel.critical OperationClass.write h = inl (inr refl, inl refl)
sensitive RiskLevel.critical OperationClass.execute h = inl (inr refl, inr (inl refl))
sensitive RiskLevel.critical OperationClass.delegate h = inl (inr refl, inr (inr refl))
sensitive RiskLevel.critical OperationClass.read h = inr (refl, refl)
sensitive RiskLevel.critical OperationClass.retrieve h = absurd (true_ne_false (sym h))
sensitive RiskLevel.critical OperationClass.analyze h = absurd (true_ne_false (sym h))

listed :
    (risk other : RiskLevel) (op wanted : OperationClass)
    → risk ≡ other
    → op ≡ wanted
    → in_approval_combinations other wanted ≡ true
    → in_approval_combinations risk op ≡ true
listed risk other op wanted h k t =
    ap (λ x. in_approval_combinations x op) h ∙ ap (in_approval_combinations other) k ∙ t

sensitive_listed :
    (risk : RiskLevel) (op : OperationClass)
    → IsSensitive risk op
    → in_approval_combinations risk op ≡ true
sensitive_listed risk op (inr (h, k)) = listed risk _ op _ h k refl
sensitive_listed risk op (inl (inl h, inl k)) = listed risk _ op _ h k refl
sensitive_listed risk op (inl (inl h, inr (inl k))) = listed risk _ op _ h k refl
sensitive_listed risk op (inl (inl h, inr (inr k))) = listed risk _ op _ h k refl
sensitive_listed risk op (inl (inr h, inl k)) = listed risk _ op _ h k refl
sensitive_listed risk op (inl (inr h, inr (inl k))) = listed risk _ op _ h k refl
sensitive_listed risk op (inl (inr h, inr (inr k))) = listed risk _ op _ h k refl

pub process_intent-approval_table :
    (lower : String → String) (enforce : Bool) (s : CapabilityStore) (d : Draws)
    (e : IntentEnvelope) (p : ExecutionPlan)
    → (process_intent lower enforce s d e).execution_plan ≡ some p
    → p.approval_required ≡ (
        (enforce
          && in_approval_combinations p.selected_capability.risk_level
              p.selected_capability.operation_class)
        || p.selected_capability.constraints.requires_human_approval)
process_intent-approval_table lower enforce s d e p h =
    let (valid, decided) = process_intent-some lower enforce s d e p h in
    let (allowed, planned) = decide-some enforce d e (match lower s e) p decided in
    let n = evaluate enforce e (match lower s e) in
    let made = plan-IsPlanFor d.plan_id e n p planned in
    let chosen = sym (selected-evaluate enforce e (match lower s e)).0 ∙ made.capability in
    sym (approval_settled enforce e (match lower s e) p allowed made)
    ∙ requires_approval-evaluate enforce e (match lower s e) p.selected_capability chosen allowed

settled :
    (needed enforce override : Bool) (risk : RiskLevel) (op : OperationClass)
    → needed ≡ ((enforce && in_approval_combinations risk op) || override)
    → (needed ≡ true) ↔ (((enforce ≡ true) × IsSensitive risk op) ⊎ (override ≡ true))
settled needed enforce override risk op h = (
  λ k. by_cause enforce override (sym h ∙ k),
  λ w. h ∙ (elim w [
    | inl (on, s) ↦ ground (arith, on, sensitive_listed risk op s)
    | inr o ↦ ground (arith, o)
  ]),
)
  where
    by_cause :
        (on o : Bool)
        → ((on && in_approval_combinations risk op) || o) ≡ true
        → ((on ≡ true) × IsSensitive risk op) ⊎ (o ≡ true)
    by_cause true true k = inr refl
    by_cause false true k = inr refl
    by_cause false false k = absurd (true_ne_false (sym k))
    by_cause true false k = inl (refl, sensitive risk op (ground arith))

-- A plan that `process_intent` returns needs approval exactly when the capability always asks for
-- it, or the approval policy is enforced and the capability's operation waits: a write, an execution
-- or a delegation of high or critical risk, or a read of critical risk.
pub process_intent-approval :
    (lower : String → String) (enforce : Bool) (s : CapabilityStore) (d : Draws)
    (e : IntentEnvelope) (p : ExecutionPlan)
    → (process_intent lower enforce s d e).execution_plan ≡ some p
    → (p.approval_required ≡ true) ↔ (
        ((enforce ≡ true)
          × IsSensitive p.selected_capability.risk_level p.selected_capability.operation_class)
        ⊎ (p.selected_capability.constraints.requires_human_approval ≡ true))
process_intent-approval lower enforce s d e p h =
    settled p.approval_required enforce p.selected_capability.constraints.requires_human_approval
      p.selected_capability.risk_level p.selected_capability.operation_class
      (process_intent-approval_table lower enforce s d e p h)
