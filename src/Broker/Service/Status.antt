-- ===== src/Broker/Service/Status.antt =====
-- The status codes that `submit_intent` answers with.
use mathlib.Core.Path.{ap, sym}
use semantic_intent_protocol.Base.{
  none, refl, not, arith, if-true, if◌then◌else◌, true_ne_false, ◌∙◌, Option, some, false, is_empty,
  ◌↔◌, ◌≡◌, List, Bool, String, true,
}
use semantic_intent_protocol.Broker.Handlers.{
  accept_plan, reject_plan, deny_by_policy, ask_clarification, refuse_invalid, BrokerResult,
  process_intent, Draws,
}
use semantic_intent_protocol.Broker.Handlers.Branches.{
  made, rejected, denied, asked, refused, IsBranch, decision, process_intent-IsBranch,
}
use semantic_intent_protocol.Broker.Service.{status_code}
use semantic_intent_protocol.Envelope.Models.{IntentEnvelope}
use semantic_intent_protocol.Envelope.Validator.{ValidationError}
use semantic_intent_protocol.Envelope.Validator.Accepted.{IsAccepted}
use semantic_intent_protocol.Negotiation.Matcher.{match}
use semantic_intent_protocol.Negotiation.Planner.{PlanError, ExecutionPlan}
use semantic_intent_protocol.Negotiation.Results.{NegotiationResult}
use semantic_intent_protocol.Registry.Storage.{CapabilityStore}

module _ (lower : String → String) (enforce : Bool) (s : CapabilityStore) (d : Draws)
    (e : IntentEnvelope) where
  -- When each code other than 200 is answered.
  pub record IsStatus (r : BrokerResult) : Type 0 where
    pub bad_request : (status_code r ≡ 400) ↔ (IsAccepted d.checked_at e → ⊥)
    pub forbidden : (status_code r ≡ 403) ↔ (
        IsAccepted d.checked_at e
        × ((match lower s e).requires_clarification ≡ false)
        × ((decision lower enforce s d e).policy_decision.allowed ≡ false))
    pub pending :
        (status_code r ≡ 202)
        ↔ ((p : ExecutionPlan) × (r.execution_plan ≡ some p) × (p.approval_required ≡ true))

  pub status-refused :
      (errors : List ValidationError)
      → is_empty errors ≡ false
      → status_code (refuse_invalid d e errors) ≡ 400
  unfolding status_code refuse_invalid
  status-refused errors h = if-true (not (is_empty errors)) _ _ (ap not h)

  pub status-asked : (n : NegotiationResult) → status_code (ask_clarification d e n) ≡ 200
  unfolding status_code ask_clarification
  status-asked n = refl

  pub status-denied : (n : NegotiationResult) → status_code (deny_by_policy d e n) ≡ 403
  unfolding status_code deny_by_policy
  status-denied n = refl

  pub status-rejected :
      (n : NegotiationResult) (why : PlanError) → status_code (reject_plan d e n why) ≡ 200
  unfolding status_code reject_plan
  status-rejected n why = refl

  pub status-made :
      (n : NegotiationResult) (p : ExecutionPlan)
      → n.policy_decision.requires_approval ≡ p.approval_required
      → status_code (accept_plan d e n p) ≡ (if p.approval_required then 202 else 200)
  unfolding status_code accept_plan
  status-made n p h = ground arith

  none_ne_some : {p : ExecutionPlan} → ◌≡◌ {A = Option ExecutionPlan} none (some p) → ⊥
  none_ne_some h = cc

  IsStatus-refused :
      (errors : List ValidationError)
      → is_empty errors ≡ false
      → (IsAccepted d.checked_at e → ⊥)
      → IsStatus (refuse_invalid d e errors)
  unfolding refuse_invalid
  IsStatus-refused errors some_error unaccepted =
      let code = status-refused errors some_error in
      record {
        bad_request = (λ h. unaccepted, λ h. code);
        forbidden = (
          λ h. absurd (ground arith),
          λ (accepted, settled, forbids). absurd (unaccepted accepted),
        );
        pending = (λ h. absurd (ground arith), λ (p, h, w). absurd (none_ne_some h));
      }

  IsStatus-asked :
      IsAccepted d.checked_at e
      → (match lower s e).requires_clarification ≡ true
      → IsStatus (ask_clarification d e (match lower s e))
  unfolding ask_clarification
  IsStatus-asked accepted asks =
      let code = status-asked (match lower s e) in
      record {
        bad_request = (λ h. absurd (ground arith), λ h. absurd (h accepted));
        forbidden = (
          λ h. absurd (ground arith),
          λ (a, settled, forbids). absurd (true_ne_false (sym asks ∙ settled)),
        );
        pending = (λ h. absurd (ground arith), λ (p, h, w). absurd (none_ne_some h));
      }

  IsStatus-denied :
      IsAccepted d.checked_at e
      → (match lower s e).requires_clarification ≡ false
      → (decision lower enforce s d e).policy_decision.allowed ≡ false
      → IsStatus (deny_by_policy d e (decision lower enforce s d e))
  unfolding deny_by_policy
  IsStatus-denied accepted settled forbids =
      let code = status-denied (decision lower enforce s d e) in
      record {
        bad_request = (λ h. absurd (ground arith), λ h. absurd (h accepted));
        forbidden = (λ h. (accepted, settled, forbids), λ h. code);
        pending = (λ h. absurd (ground arith), λ (p, h, w). absurd (none_ne_some h));
      }

  IsStatus-rejected :
      (why : PlanError)
      → IsAccepted d.checked_at e
      → (decision lower enforce s d e).policy_decision.allowed ≡ true
      → IsStatus (reject_plan d e (decision lower enforce s d e) why)
  unfolding reject_plan
  IsStatus-rejected why accepted allowed =
      let code = status-rejected (decision lower enforce s d e) why in
      record {
        bad_request = (λ h. absurd (ground arith), λ h. absurd (h accepted));
        forbidden = (
          λ h. absurd (ground arith),
          λ (a, settled, forbids). absurd (true_ne_false (sym allowed ∙ forbids)),
        );
        pending = (λ h. absurd (ground arith), λ (p, h, w). absurd (none_ne_some h));
      }

  some_injective : {p q : ExecutionPlan} → some p ≡ some q → p ≡ q
  some_injective h = cc

  IsStatus-made :
      (p : ExecutionPlan)
      → IsAccepted d.checked_at e
      → (decision lower enforce s d e).policy_decision.allowed ≡ true
      → (decision lower enforce s d e).policy_decision.requires_approval ≡ p.approval_required
      → IsStatus (accept_plan d e (decision lower enforce s d e) p)
  unfolding accept_plan
  IsStatus-made p accepted allowed same =
      let code = status-made (decision lower enforce s d e) p same in
      record {
        bad_request = (λ h. absurd (ground arith), λ h. absurd (h accepted));
        forbidden = (
          λ h. absurd (ground arith),
          λ (a, settled, forbids). absurd (true_ne_false (sym allowed ∙ forbids)),
        );
        pending = (
          λ h. (p, refl, ground arith),
          λ (q, h, w).
              let waits = ap (λ r. r.approval_required) (some_injective h) ∙ w in
              code ∙ if-true p.approval_required _ _ waits,
        );
      }

  IsBranch-IsStatus : {r : BrokerResult} → IsBranch lower enforce s d e r → IsStatus r
  IsBranch-IsStatus (refused errors h unaccepted) = IsStatus-refused errors h unaccepted
  IsBranch-IsStatus (asked accepted asks) = IsStatus-asked accepted asks
  IsBranch-IsStatus (denied accepted settled forbids) = IsStatus-denied accepted settled forbids
  IsBranch-IsStatus (rejected why accepted settled allowed) = IsStatus-rejected why accepted allowed
  IsBranch-IsStatus (made p accepted settled allowed same) = IsStatus-made p accepted allowed same

  -- The broker answers 400 exactly to the envelopes that the validator does not accept, 403 exactly
  -- when the envelope is accepted, the matcher asks for no clarification and the policy engine
  -- denies, and 202 exactly when the plan it returns needs approval.
  pub process_intent-IsStatus : IsStatus (process_intent lower enforce s d e)
  process_intent-IsStatus = IsBranch-IsStatus (process_intent-IsBranch lower enforce s d e)
