-- ===== src/Broker/Handlers/Branches.antt =====
-- The branches of `process_intent` as a case distinction.
use mathlib.Core.Path.{sym, subst}
use semantic_intent_protocol.Base.{
  true_ne_false, ◌∙◌, false, inr, is_empty, ◌≡◌, Bool-cases, List, Bool, String, true, inl,
}
use semantic_intent_protocol.Broker.Handlers.{
  accept_plan, reject_plan, deny_by_policy, ask_clarification, refuse_invalid, plan_and_record,
  decide, BrokerResult, process_intent, Draws,
}
use semantic_intent_protocol.Broker.Handlers.Audit.{approval_settled}
use semantic_intent_protocol.Broker.Handlers.Laws.{
  plan_and_record-ok, plan_and_record-err, process_intent-invalid, Result-cases, decide-settled,
  decide-asks, plan_and_record-denied, process_intent-valid,
}
use semantic_intent_protocol.Envelope.Models.{IntentEnvelope}
use semantic_intent_protocol.Envelope.Validator.{ValidationError, validate_envelope}
use semantic_intent_protocol.Envelope.Validator.Accepted.{IsAccepted}
use semantic_intent_protocol.Envelope.Validator.Laws.{
  valid-validate_envelope, validate_envelope-IsAccepted,
}
use semantic_intent_protocol.Negotiation.Matcher.{match}
use semantic_intent_protocol.Negotiation.Planner.{plan, PlanError, ExecutionPlan}
use semantic_intent_protocol.Negotiation.Planner.Laws.{plan-IsPlanFor}
use semantic_intent_protocol.Negotiation.Results.{NegotiationResult}
use semantic_intent_protocol.Policy.Engine.{evaluate}
use semantic_intent_protocol.Registry.Storage.{CapabilityStore}

module _ (lower : String → String) (enforce : Bool) (s : CapabilityStore) (d : Draws)
    (e : IntentEnvelope) where
  -- The decision of the policy engine on what the matcher selects.
  abbrev pub decision : NegotiationResult
  decision = evaluate enforce e (match lower s e)

  -- The branches of `process_intent`, each with the condition under which it is taken.
  pub data IsBranch : BrokerResult → Type 0 where
    refused :
        (errors : List ValidationError)
        → is_empty errors ≡ false
        → (IsAccepted d.checked_at e → ⊥)
        → IsBranch (refuse_invalid d e errors)
    asked :
        IsAccepted d.checked_at e
        → (match lower s e).requires_clarification ≡ true
        → IsBranch (ask_clarification d e (match lower s e))
    denied :
        IsAccepted d.checked_at e
        → (match lower s e).requires_clarification ≡ false
        → decision.policy_decision.allowed ≡ false
        → IsBranch (deny_by_policy d e decision)
    rejected :
        (why : PlanError)
        → IsAccepted d.checked_at e
        → (match lower s e).requires_clarification ≡ false
        → decision.policy_decision.allowed ≡ true
        → IsBranch (reject_plan d e decision why)
    made :
        (p : ExecutionPlan)
        → IsAccepted d.checked_at e
        → (match lower s e).requires_clarification ≡ false
        → decision.policy_decision.allowed ≡ true
        → decision.policy_decision.requires_approval ≡ p.approval_required
        → IsBranch (accept_plan d e decision p)

  settled-IsBranch :
      IsAccepted d.checked_at e
      → (match lower s e).requires_clarification ≡ false
      → IsBranch (plan_and_record d e decision)
  settled-IsBranch accepted settled = elim (Bool-cases decision.policy_decision.allowed) [
    | inr forbids ↦
        subst IsBranch (sym (plan_and_record-denied d e decision forbids))
          (denied accepted settled forbids)
    | inl allowed ↦ elim (Result-cases (plan d.plan_id e decision)) [
      | inl (why, k) ↦
          subst IsBranch (sym (plan_and_record-err d e decision why allowed k))
            (rejected why accepted settled allowed)
      | inr (p, k) ↦ subst IsBranch (sym (plan_and_record-ok d e decision p allowed k)) (
          made p accepted settled allowed (
            approval_settled enforce e (match lower s e) p allowed
              (plan-IsPlanFor d.plan_id e decision p k)))
    ]
  ]

  decided-IsBranch : IsAccepted d.checked_at e → IsBranch (decide enforce d e (match lower s e))
  decided-IsBranch accepted = elim (Bool-cases (match lower s e).requires_clarification) [
    | inl asks ↦
        subst IsBranch (sym (decide-asks d e (match lower s e) enforce asks)) (asked accepted asks)
    | inr settled ↦
        subst IsBranch (sym (decide-settled d e (match lower s e) enforce settled))
          (settled-IsBranch accepted settled)
  ]

  pub process_intent-IsBranch : IsBranch (process_intent lower enforce s d e)
  process_intent-IsBranch = elim (Bool-cases (validate_envelope d.checked_at e).valid) [
    | inl valid ↦
        subst IsBranch (sym (process_intent-valid lower enforce s d e valid))
          (decided-IsBranch ((validate_envelope-IsAccepted d.checked_at e).0 valid))
    | inr invalid ↦ subst IsBranch (sym (process_intent-invalid lower enforce s d e invalid)) (
        refused (validate_envelope d.checked_at e).errors
          (sym (valid-validate_envelope d.checked_at e) ∙ invalid)
          (λ accepted. absurd (
            true_ne_false
              (sym ((validate_envelope-IsAccepted d.checked_at e).1 accepted) ∙ invalid))))
  ]
