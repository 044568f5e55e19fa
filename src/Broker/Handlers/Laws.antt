-- ===== src/Broker/Handlers/Laws.antt =====
-- What `process_intent` guarantees: a plan is authorised, and the audit record tells what happened.
use semantic_intent_protocol.Base.{
  none, inr, not, if-false, if-true, ◌⊎◌, ap, err, Option, Result, some, false, In, ◌∙◌, sym,
  Bool-cases, ok, arith, Bool, true, inl, String, ◌≡◌, refl,
}
use semantic_intent_protocol.Broker.Handlers.{
  BrokerResult, reject_plan, accept_plan, ask_clarification, deny_by_policy, refuse_invalid, decide,
  plan_and_record, Draws, process_intent,
}
use semantic_intent_protocol.Envelope.Models.{IntentEnvelope}
use semantic_intent_protocol.Envelope.Validator.{validate_envelope}
use semantic_intent_protocol.Envelope.Validator.Accepted.{IsAccepted}
use semantic_intent_protocol.Envelope.Validator.Laws.{validate_envelope-IsAccepted}
use semantic_intent_protocol.Negotiation.Matcher.{match}
use semantic_intent_protocol.Negotiation.Matcher.Selection.{
  select_preferred_binding-In, match-IsSelection, IsSelection,
}
use semantic_intent_protocol.Negotiation.Planner.{PlanError, plan, ExecutionPlan}
use semantic_intent_protocol.Negotiation.Planner.Laws.{plan-IsPlanFor}
use semantic_intent_protocol.Negotiation.Results.{NegotiationResult}
use semantic_intent_protocol.Policy.Engine.{evaluate}
use semantic_intent_protocol.Policy.Engine.Permitted.{evaluate-IsPermitted, IsPermitted}
use semantic_intent_protocol.Registry.Storage.{CapabilityStore}

-- All that has to hold before a plan may leave the broker.
pub record IsAuthorised (lower : String → String) (s : CapabilityStore) (d : Draws)
    (e : IntentEnvelope) (p : ExecutionPlan) : Type 0 where
  pub accepted : IsAccepted d.checked_at e
  pub selection : IsSelection lower s e p.selected_capability
  pub permitted : IsPermitted e p.selected_capability
  pub bound : In p.selected_binding p.selected_capability.supported_bindings

pub selected-evaluate :
    (enforce : Bool) (e : IntentEnvelope) (n : NegotiationResult)
    → ((evaluate enforce e n).selected_capability ≡ n.selected_capability)
      × ((evaluate enforce e n).selected_binding ≡ n.selected_binding)
unfolding evaluate
selected-evaluate enforce e n = (ground arith, ground arith)

-- The branches of the body, as equations.
module _ (d : Draws) (e : IntentEnvelope) (n : NegotiationResult) where
  pub plan_and_record-denied :
      n.policy_decision.allowed ≡ false → plan_and_record d e n ≡ deny_by_policy d e n
  unfolding plan_and_record
  plan_and_record-denied h = if-true (not n.policy_decision.allowed) _ _ (ap not h)

  pub plan_and_record-ok :
      (p : ExecutionPlan)
      → n.policy_decision.allowed ≡ true
      → plan d.plan_id e n ≡ ok p
      → plan_and_record d e n ≡ accept_plan d e n p
  unfolding plan_and_record
  plan_and_record-ok p h k = if-false (not n.policy_decision.allowed) _ _ (ap not h) ∙ rw k

  pub plan_and_record-err :
      (why : PlanError)
      → n.policy_decision.allowed ≡ true
      → plan d.plan_id e n ≡ err why
      → plan_and_record d e n ≡ reject_plan d e n why
  unfolding plan_and_record
  plan_and_record-err why h k = if-false (not n.policy_decision.allowed) _ _ (ap not h) ∙ rw k

  pub decide-asks :
      (enforce : Bool)
      → n.requires_clarification ≡ true
      → decide enforce d e n ≡ ask_clarification d e n
  unfolding decide
  decide-asks enforce h = if-true n.requires_clarification _ _ h

  pub decide-settled :
      (enforce : Bool)
      → n.requires_clarification ≡ false
      → decide enforce d e n ≡ plan_and_record d e (evaluate enforce e n)
  unfolding decide
  decide-settled enforce h = if-false n.requires_clarification _ _ h

pub Result-cases {ℓ κ} :
    {E : Type ℓ} {A : Type κ} (r : Result E A) → ((x : E) × (r ≡ err x)) ⊎ ((a : A) × (r ≡ ok a))
Result-cases (ok a) = inr (a, refl)
Result-cases (err x) = inl (x, refl)

some_injective : {p q : ExecutionPlan} → some p ≡ some q → p ≡ q
some_injective h = cc

none_ne_some : {p : ExecutionPlan} → ◌≡◌ {A = Option ExecutionPlan} none (some p) → ⊥
none_ne_some h = cc

plan_and_record-some :
    (d : Draws) (e : IntentEnvelope) (n : NegotiationResult) (p : ExecutionPlan)
    → (plan_and_record d e n).execution_plan ≡ some p
    → (n.policy_decision.allowed ≡ true) × (plan d.plan_id e n ≡ ok p)
unfolding deny_by_policy accept_plan reject_plan
plan_and_record-some d e n p h = elim (Bool-cases n.policy_decision.allowed) [
  | inr denied ↦ absurd (none_ne_some (sym (returned (plan_and_record-denied d e n denied)) ∙ h))
  | inl allowed ↦ elim (Result-cases (plan d.plan_id e n)) [
    | inl (why, k) ↦
        absurd (none_ne_some (sym (returned (plan_and_record-err d e n why allowed k)) ∙ h))
    | inr (q, k) ↦
        let same = some_injective (sym (returned (plan_and_record-ok d e n q allowed k)) ∙ h) in
        (allowed, k ∙ ap ok same)
  ]
]
  where
    returned :
        {r : BrokerResult}
        → plan_and_record d e n ≡ r
        → (plan_and_record d e n).execution_plan ≡ r.execution_plan
    returned k = ap (λ r. r.execution_plan) k

pub decide-some :
    (enforce : Bool) (d : Draws) (e : IntentEnvelope) (n : NegotiationResult) (p : ExecutionPlan)
    → (decide enforce d e n).execution_plan ≡ some p
    → ((evaluate enforce e n).policy_decision.allowed ≡ true)
      × (plan d.plan_id e (evaluate enforce e n) ≡ ok p)
unfolding ask_clarification
decide-some enforce d e n p h = elim (Bool-cases n.requires_clarification) [
  | inl asks ↦
      absurd (none_ne_some (sym (ap (λ r. r.execution_plan) (decide-asks d e n enforce asks)) ∙ h))
  | inr settled ↦
      plan_and_record-some d e (evaluate enforce e n) p
        (sym (ap (λ r. r.execution_plan) (decide-settled d e n enforce settled)) ∙ h)
]

module _ (lower : String → String) (enforce : Bool) (s : CapabilityStore) where
  pub process_intent-valid :
      (d : Draws) (e : IntentEnvelope)
      → (validate_envelope d.checked_at e).valid ≡ true
      → process_intent lower enforce s d e ≡ decide enforce d e (match lower s e)
  unfolding process_intent
  process_intent-valid d e h =
      if-false (not (validate_envelope d.checked_at e).valid) _ _ (ap not h)

  pub process_intent-invalid :
      (d : Draws) (e : IntentEnvelope)
      → (validate_envelope d.checked_at e).valid ≡ false
      → process_intent lower enforce s d e
        ≡ refuse_invalid d e (validate_envelope d.checked_at e).errors
  unfolding process_intent
  process_intent-invalid d e h =
      if-true (not (validate_envelope d.checked_at e).valid) _ _ (ap not h)

  pub process_intent-some :
      (d : Draws) (e : IntentEnvelope) (p : ExecutionPlan)
      → (process_intent lower enforce s d e).execution_plan ≡ some p
      → ((validate_envelope d.checked_at e).valid ≡ true)
        × ((decide enforce d e (match lower s e)).execution_plan ≡ some p)
  unfolding refuse_invalid
  process_intent-some d e p h = elim (Bool-cases (validate_envelope d.checked_at e).valid) [
    | inl valid ↦ (valid, sym (ap (λ r. r.execution_plan) (process_intent-valid d e valid)) ∙ h)
    | inr invalid ↦
        absurd
          (none_ne_some (sym (ap (λ r. r.execution_plan) (process_intent-invalid d e invalid)) ∙ h))
  ]

  -- A plan that `process_intent` returns is for an envelope that satisfies the validator's rules,
  -- for a registered candidate with the highest score, whose tier the actor's trust reaches, which
  -- the policy permits, over a binding that the capability supports.
  pub process_intent-IsAuthorised :
      (d : Draws) (e : IntentEnvelope) (p : ExecutionPlan)
      → (process_intent lower enforce s d e).execution_plan ≡ some p
      → IsAuthorised lower s d e p
  process_intent-IsAuthorised d e p h =
      let (valid, decided) = process_intent-some d e p h in
      let (allowed, planned) = decide-some enforce d e (match lower s e) p decided in
      let n = evaluate enforce e (match lower s e) in
      let (same_capability, same_binding) = selected-evaluate enforce e (match lower s e) in
      let made = plan-IsPlanFor d.plan_id e n p planned in
      let c = p.selected_capability in
      let chosen : (match lower s e).selected_capability ≡ some c =
        sym same_capability ∙ made.capability in
      let selection = match-IsSelection lower s e c chosen in
      record {
        accepted = (validate_envelope-IsAccepted d.checked_at e).0 valid;
        selection = selection;
        permitted = (evaluate-IsPermitted enforce e (match lower s e) c chosen).0 allowed;
        bound =
            (select_preferred_binding-In e c).supported p.selected_binding
              (sym selection.binding ∙ (sym same_binding ∙ made.binding));
      }
