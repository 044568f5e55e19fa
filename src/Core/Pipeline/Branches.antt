-- ===== src/Core/Pipeline/Branches.antt =====
-- The branches of `SIPPipeline.process`, as one case each.
use mathlib.Core.Path.{ap, sym, subst}
use semantic_intent_protocol.Base.{
  if-true, not, if-false, none, ok, Bool-cases, err, Option, ◌≡◌, Result, List, Dict, String, Value,
  some, true, false, inl, inr, refl,
}
use semantic_intent_protocol.Core.Bundle.{PipelineDraws}
use semantic_intent_protocol.Core.FailClosed.{StructuredDenial}
use semantic_intent_protocol.Core.Intent.{from_envelope, NormalizedIntent}
use semantic_intent_protocol.Core.Pipeline.{
  hand_over, refuse_denied, refuse_unplanned, refuse_invalid, issue, refuse_unnormalized, judge,
  Turn, decide_on, turn,
}
use semantic_intent_protocol.Core.Planner.{plan_normalized}
use semantic_intent_protocol.Envelope.Models.{IntentEnvelope}
use semantic_intent_protocol.Envelope.Validator.{validate_envelope}
use semantic_intent_protocol.Negotiation.Planner.{ExecutionPlan}
use semantic_intent_protocol.Policy.Interface.{PolicyResult}
use semantic_intent_protocol.Registry.Models.{CapabilityDescriptor}

module _ (text_of : Value → String) (model_dump : IntentEnvelope → Dict Value)
    (evaluate : NormalizedIntent → List CapabilityDescriptor → PolicyResult) (d : PipelineDraws)
    (cs : List CapabilityDescriptor) (e : IntentEnvelope) where
  abbrev pub Normalizes : NormalizedIntent → Type 0
  Normalizes i = from_envelope text_of model_dump d.normalized_at e ≡ some i

  abbrev pub plan_for : NormalizedIntent → Result StructuredDenial ExecutionPlan
  plan_for i = plan_normalized d.plan_id d.span_id i (evaluate i cs) cs

  pub data IsTurn : Turn → Type 0 where
    unnormalized :
        from_envelope text_of model_dump d.normalized_at e ≡ none → IsTurn (refuse_unnormalized d e)
    invalid :
        (i : NormalizedIntent)
        → Normalizes i
        → (validate_envelope d.checked_at e).valid ≡ false
        → IsTurn (issue (refuse_invalid d e i (validate_envelope d.checked_at e).errors))
    denied :
        (i : NormalizedIntent)
        → Normalizes i
        → (validate_envelope d.checked_at e).valid ≡ true
        → (evaluate i cs).allowed ≡ false
        → IsTurn (issue (refuse_denied d e i (evaluate i cs)))
    unplanned :
        (i : NormalizedIntent) (denial : StructuredDenial)
        → Normalizes i
        → plan_for i ≡ err denial
        → IsTurn (issue (refuse_unplanned d e i denial))
    planned :
        (i : NormalizedIntent) (p : ExecutionPlan)
        → Normalizes i
        → (validate_envelope d.checked_at e).valid ≡ true
        → (evaluate i cs).allowed ≡ true
        → plan_for i ≡ ok p
        → IsTurn (issue (hand_over d e i (evaluate i cs) p))

  decide_on-IsTurn :
      (i : NormalizedIntent)
      → Normalizes i
      → (validate_envelope d.checked_at e).valid ≡ true
      → IsTurn (issue (decide_on d e i cs (evaluate i cs)))
  unfolding decide_on
  decide_on-IsTurn i n v = elim (Bool-cases (evaluate i cs).allowed) [
    | inl a ↦
        subst (λ b. IsTurn (issue b)) (sym (if-false (not (evaluate i cs).allowed) _ _ (ap not a)))
          (by_plan a (plan_for i) refl)
    | inr a ↦
        subst (λ b. IsTurn (issue b)) (sym (if-true (not (evaluate i cs).allowed) _ _ (ap not a)))
          (denied i n v a)
  ]
    where
      by_plan :
          (evaluate i cs).allowed ≡ true
          → (o : Result StructuredDenial ExecutionPlan) → plan_for i ≡ o
          → IsTurn (
              issue (elim o [
                | err denial ↦ refuse_unplanned d e i denial
                | ok p ↦ hand_over d e i (evaluate i cs) p
              ]))
      by_plan a (err denial) h = unplanned i denial n h
      by_plan a (ok p) h = planned i p n v a h

  pub turn-IsTurn : IsTurn (turn text_of model_dump evaluate d cs e)
  unfolding turn judge
  turn-IsTurn = by_intent (from_envelope text_of model_dump d.normalized_at e) refl
    where
      by_intent :
          (o : Option NormalizedIntent)
          → from_envelope text_of model_dump d.normalized_at e ≡ o
          → IsTurn (elim o [
            | none ↦ refuse_unnormalized d e
            | some i ↦ issue (judge text_of model_dump evaluate d cs e i)
          ])
      by_intent none h = unnormalized h
      by_intent (some i) h = elim (Bool-cases (validate_envelope d.checked_at e).valid) [
        | inl v ↦
            subst (λ b. IsTurn (issue b))
              (sym (if-false (not (validate_envelope d.checked_at e).valid) _ _ (ap not v)))
              (decide_on-IsTurn i h v)
        | inr v ↦
            subst (λ b. IsTurn (issue b))
              (sym (if-true (not (validate_envelope d.checked_at e).valid) _ _ (ap not v)))
              (invalid i h v)
      ]
