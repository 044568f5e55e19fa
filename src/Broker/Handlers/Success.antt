-- ===== src/Broker/Handlers/Success.antt =====
-- When `process_intent` returns a plan.
use mathlib.Core.Path.{ap}
use semantic_intent_protocol.Base.{[], some, inr, ◌∙◌, Option-cases, ◌≡◌, ◌≢◌, Bool, String, inl}
use semantic_intent_protocol.Broker.Handlers.{plan_and_record, process_intent, Draws, accept_plan}
use semantic_intent_protocol.Broker.Handlers.Laws.{
  plan_and_record-ok, decide-settled, process_intent-valid, selected-evaluate,
}
use semantic_intent_protocol.Envelope.Enums.{BindingType}
use semantic_intent_protocol.Envelope.Models.{IntentEnvelope}
use semantic_intent_protocol.Envelope.Validator.Accepted.{IsAccepted}
use semantic_intent_protocol.Envelope.Validator.Laws.{validate_envelope-IsAccepted}
use semantic_intent_protocol.Negotiation.Matcher.{select_preferred_binding, match}
use semantic_intent_protocol.Negotiation.Matcher.Selection.{
  match-IsSelection, select_preferred_binding-In, IsSelection,
}
use semantic_intent_protocol.Negotiation.Planner.{ExecutionPlan}
use semantic_intent_protocol.Negotiation.Planner.Laws.{plan_succeeds}
use semantic_intent_protocol.Policy.Engine.{evaluate}
use semantic_intent_protocol.Policy.Engine.Permitted.{evaluate-IsPermitted, IsPermitted}
use semantic_intent_protocol.Registry.Models.{CapabilityDescriptor}
use semantic_intent_protocol.Registry.Storage.{CapabilityStore}

module _ (lower : String → String) (enforce : Bool) (s : CapabilityStore) where
  bound_selection :
      (e : IntentEnvelope) (c : CapabilityDescriptor)
      → IsSelection lower s e c
      → c.supported_bindings ≢ []
      → (b : BindingType) × ((match lower s e).selected_binding ≡ some b)
  bound_selection e c chosen supports = elim (Option-cases (select_preferred_binding e c)) [
    | inl absent ↦ absurd (supports ((select_preferred_binding-In e c).present absent))
    | inr (b, bound) ↦ (b, chosen.binding ∙ bound)
  ]

  planned :
      (d : Draws) (e : IntentEnvelope) (c : CapabilityDescriptor)
      → (match lower s e).selected_capability ≡ some c
      → IsPermitted e c
      → c.supported_bindings ≢ []
      → (p : ExecutionPlan) × (plan_and_record d e (evaluate enforce e (match lower s e))
          ≡ accept_plan d e (evaluate enforce e (match lower s e)) p)
  planned d e c h permitted supports =
      let n = evaluate enforce e (match lower s e) in
      let (b, bound) = bound_selection e c (match-IsSelection lower s e c h) supports in
      let (same_capability, same_binding) = selected-evaluate enforce e (match lower s e) in
      let (p, made) =
        plan_succeeds d.plan_id e n c b (same_capability ∙ h) (same_binding ∙ bound) in
      let allowed = (evaluate-IsPermitted enforce e (match lower s e) c h).1 permitted in
      (p, plan_and_record-ok d e n p allowed made)

  -- For an envelope that satisfies the validator's rules, when the matcher selects a capability
  -- that the policy permits and that supports some binding, `process_intent` returns a plan.
  pub process_intent_succeeds :
      (d : Draws) (e : IntentEnvelope) (c : CapabilityDescriptor)
      → IsAccepted d.checked_at e
      → (match lower s e).selected_capability ≡ some c
      → IsPermitted e c
      → c.supported_bindings ≢ []
      → (p : ExecutionPlan) × ((process_intent lower enforce s d e).execution_plan ≡ some p)
  unfolding accept_plan
  process_intent_succeeds d e c accepted h permitted supports =
      let n = match lower s e in
      let valid = (validate_envelope-IsAccepted d.checked_at e).1 accepted in
      let settled = (match-IsSelection lower s e c h).settled in
      let (p, made) = planned d e c h permitted supports in
      (
        p,
        ap (λ r. r.execution_plan)
            (process_intent-valid lower enforce s d e valid
              ∙ decide-settled d e n enforce settled
              ∙ made),
      )
