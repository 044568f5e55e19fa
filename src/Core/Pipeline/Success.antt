-- ===== src/Core/Pipeline/Success.antt =====
-- When `SIPPipeline.process` gives a plan, with the canonical policy engine.
use mathlib.Core.Path.{subst}
use semantic_intent_protocol.Base.{
  [], err, sym, true_ne_false, ◌⊎◌, not, ok, ap, is_some, ◌∙◌, Dict, ◌≡◌, is_empty, In, String,
  List, Value, ◌∷◌, some, true, false, inl, inr, refl,
}
use semantic_intent_protocol.Core.Bundle.{DecisionBundle, PipelineAudit, PipelineDraws}
use semantic_intent_protocol.Core.Intent.{from_envelope, NormalizedIntent}
use semantic_intent_protocol.Core.Pipeline.{hand_over, turn, Turn, process}
use semantic_intent_protocol.Core.Pipeline.Branches.{
  planned, unplanned, denied, turn-IsTurn, invalid, unnormalized, IsTurn,
}
use semantic_intent_protocol.Core.Planner.{plan_normalized}
use semantic_intent_protocol.Core.Planner.Choice.{plan_normalized-some}
use semantic_intent_protocol.Core.Policy.{evaluate_internal, CanonicalSettings}
use semantic_intent_protocol.Core.Policy.Admitted.{
  evaluate_internal-IsAdmitted, evaluate_internal-approvals, IsCleared,
}
use semantic_intent_protocol.Core.Policy.Candidates.{IsAdmitted}
use semantic_intent_protocol.Envelope.Models.{IntentEnvelope}
use semantic_intent_protocol.Envelope.Validator.{validate_envelope}
use semantic_intent_protocol.Envelope.Validator.Accepted.{IsAccepted}
use semantic_intent_protocol.Envelope.Validator.Laws.{validate_envelope-IsAccepted}
use semantic_intent_protocol.Negotiation.Matcher.{first}
use semantic_intent_protocol.Negotiation.Planner.{ExecutionPlan}
use semantic_intent_protocol.Registry.Models.{CapabilityDescriptor}

non_empty : {A : Type 0} (a : A) (xs : List A) → In a xs → is_empty xs ≡ false
non_empty a [] m = absurd m
non_empty a (x ∷ xs) m = refl

module _ (w : CanonicalSettings) (i : NormalizedIntent) (cs : List CapabilityDescriptor)
    (c : CapabilityDescriptor) where
  present-evaluate_internal :
      IsCleared w i
      → In c cs
      → IsAdmitted i c
      → is_empty (evaluate_internal w i cs).allowed_capabilities ≡ false
  present-evaluate_internal cleared m a =
      non_empty c _ ((evaluate_internal-IsAdmitted w i cs c).1 (cleared, m, a))

  allowed-evaluate_internal :
      IsCleared w i → In c cs → IsAdmitted i c → (evaluate_internal w i cs).allowed ≡ true
  allowed-evaluate_internal cleared m a =
      (evaluate_internal-approvals w i cs).0 ∙ ap not (present-evaluate_internal cleared m a)

module _ (text_of : Value → String) (model_dump : IntentEnvelope → Dict Value)
    (w : CanonicalSettings) (d : PipelineDraws) (cs : List CapabilityDescriptor)
    (e : IntentEnvelope) where
  -- What a turn has to be for its bundle to hold a plan.
  abbrev HasPlan : Turn → Type 0
  HasPlan t =
      (b : DecisionBundle) × (p : ExecutionPlan) × (t.bundle ≡ some b) × (b.execution_plan ≡ some p)

  IsTurn-HasPlan :
      (i : NormalizedIntent)
      → from_envelope text_of model_dump d.normalized_at e ≡ some i
      → (validate_envelope d.checked_at e).valid ≡ true
      → (evaluate_internal w i cs).allowed ≡ true
      → ((q : ExecutionPlan) × (plan_normalized d.plan_id d.span_id i (evaluate_internal w i cs) cs
            ≡ ok q))
      → (t : Turn) → IsTurn text_of model_dump (evaluate_internal w) d cs e t
      → HasPlan t
  unfolding hand_over
  IsTurn-HasPlan i n v a (q, k) t (unnormalized h) = cc
  IsTurn-HasPlan i n v a (q, k) t (invalid j h g) = absurd (true_ne_false (sym v ∙ g))
  IsTurn-HasPlan i n v a (q, k) t (denied j h g f) =
      let same : i ≡ j = cc in
      absurd (
        true_ne_false
          (sym a ∙ subst (λ x. (evaluate_internal w x cs).allowed ≡ false) (sym same) f))
  IsTurn-HasPlan i n v a (q, k) t (unplanned j denial h g) =
      let same : i ≡ j = cc in
      let raised =
        subst
          (λ x. plan_normalized d.plan_id d.span_id x (evaluate_internal w x cs) cs ≡ err denial)
          (sym same) g in
      cc
  IsTurn-HasPlan i n v a (q, k) t (planned j p h g f r) =
      (hand_over d e j (evaluate_internal w j cs) p, p, refl, refl)

  -- With the canonical policy engine, an envelope that is normalized, accepted and cleared gets a
  -- bundle with a plan if one of the candidates is admitted and each of them supports a binding.
  pub process_succeeds :
      (i : NormalizedIntent) (c : CapabilityDescriptor) (log : List PipelineAudit)
      → from_envelope text_of model_dump d.normalized_at e ≡ some i
      → IsAccepted d.checked_at e
      → IsCleared w i
      → In c cs
      → IsAdmitted i c
      → ((a : CapabilityDescriptor) → In a cs → is_some (first a.supported_bindings) ≡ true)
      → (b : DecisionBundle) × (p : ExecutionPlan) × ((process text_of model_dump
            (evaluate_internal w)
            d
            cs
            e
            log).0
          ≡ some b)
        × (b.execution_plan ≡ some p)
  unfolding process
  process_succeeds i c log n accepted cleared m a bound =
      let r = evaluate_internal w i cs in
      let bound_or_allowed : (x : CapabilityDescriptor)
          → In x cs ⊎ In x r.allowed_capabilities
          → is_some (first x.supported_bindings) ≡ true =
        λ x h. elim h [
          | inl k ↦ bound x k
          | inr k ↦ bound x ((evaluate_internal-IsAdmitted w i cs x).0 k).1
        ] in
      let allowed = allowed-evaluate_internal w i cs c cleared m a in
      IsTurn-HasPlan i n ((validate_envelope-IsAccepted d.checked_at e).1 accepted) allowed
        (plan_normalized-some d.plan_id d.span_id i r cs allowed
          (present-evaluate_internal w i cs c cleared m a) bound_or_allowed)
        (turn text_of model_dump (evaluate_internal w) d cs e)
        (turn-IsTurn text_of model_dump (evaluate_internal w) d cs e)
