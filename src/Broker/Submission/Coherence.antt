-- ===== src/Broker/Submission/Coherence.antt =====
-- The response body of `submit_intent` (sip/broker/service.py), against the status code.
use semantic_intent_protocol.Base.{
  true, inr, if-false, ◌⊎◌, if-true, if◌then◌else◌, is_some, List, true_ne_false, ◌↔◌, arith, not,
  leb, Bool, inl, sym, ◌∙◌, ap, ◌≡◌, String, false, refl,
}
use semantic_intent_protocol.Broker.Handlers.{
  accept_plan, ask_clarification, deny_by_policy, process_intent, refuse_invalid, reject_plan,
  Draws, BrokerResult,
}
use semantic_intent_protocol.Broker.Handlers.Branches.{
  made, rejected, decision, denied, asked, process_intent-IsBranch, refused, IsBranch,
}
use semantic_intent_protocol.Broker.Responses.{response_body}
use semantic_intent_protocol.Broker.Service.{status_code}
use semantic_intent_protocol.Broker.Service.Status.{
  status-asked, status-denied, status-made, status-refused, status-rejected,
}
use semantic_intent_protocol.Envelope.Models.{IntentEnvelope}
use semantic_intent_protocol.Envelope.Validator.{ValidationError}
use semantic_intent_protocol.Negotiation.Matcher.{match}
use semantic_intent_protocol.Negotiation.Planner.{ExecutionPlan, PlanError}
use semantic_intent_protocol.Negotiation.Results.{NegotiationResult}
use semantic_intent_protocol.Observability.Audit.{OutcomeSummary}
use semantic_intent_protocol.Policy.Engine.{evaluate}
use semantic_intent_protocol.Registry.Storage.{CapabilityStore}

-- What a client reads off the body and off the code.
pub record IsCoherent (r : BrokerResult) : Type 0 where
  pub permission : leb 400 (status_code r) ≡ not (response_body r).policy_allowed
  pub approval : (status_code r ≡ 202) ↔ ((response_body r).approval_required ≡ true)
  pub planning : (is_some (response_body r).plan_id ≡ true) ↔ (
      ((response_body r).outcome ≡ OutcomeSummary.success)
      ⊎ ((response_body r).outcome ≡ OutcomeSummary.pending_approval))
  pub clarification :
      ((response_body r).requires_clarification ≡ true)
      ↔ ((status_code r ≡ 400) ⊎ ((response_body r).outcome ≡ OutcomeSummary.needs_clarification))

asks-evaluate :
    (enforce : Bool) (e : IntentEnvelope) (n : NegotiationResult)
    → (evaluate enforce e n).requires_clarification ≡ n.requires_clarification
unfolding evaluate
asks-evaluate enforce e n = ground arith

module _ (lower : String → String) (enforce : Bool) (s : CapabilityStore) (d : Draws)
    (e : IntentEnvelope) where
  refused-IsCoherent :
      (errors : List ValidationError)
      → status_code (refuse_invalid d e errors) ≡ 400
      → IsCoherent (refuse_invalid d e errors)
  unfolding refuse_invalid response_body
  refused-IsCoherent errors code = record {
    permission = ap (leb 400) code;
    approval = (λ h. absurd (ground arith), λ h. cc);
    planning = (λ h. cc, λ h. elim h [ inl k ↦ cc | inr k ↦ cc ]);
    clarification = (λ h. inl code, λ h. refl);
  }

  asked-IsCoherent :
      (n : NegotiationResult)
      → n.requires_clarification ≡ true
      → status_code (ask_clarification d e n) ≡ 200
      → IsCoherent (ask_clarification d e n)
  unfolding ask_clarification response_body
  asked-IsCoherent n asks code = record {
    permission = ap (leb 400) code;
    approval = (λ h. absurd (ground arith), λ h. cc);
    planning = (λ h. cc, λ h. elim h [ inl k ↦ cc | inr k ↦ cc ]);
    clarification = (λ h. inr refl, λ h. asks);
  }

  denied-IsCoherent :
      (n : NegotiationResult)
      → n.requires_clarification ≡ false
      → status_code (deny_by_policy d e n) ≡ 403
      → IsCoherent (deny_by_policy d e n)
  unfolding deny_by_policy response_body
  denied-IsCoherent n settled code = record {
    permission = ap (leb 400) code;
    approval = (λ h. absurd (ground arith), λ h. cc);
    planning = (λ h. cc, λ h. elim h [ inl k ↦ cc | inr k ↦ cc ]);
    clarification = (
      λ h. absurd (true_ne_false (sym h ∙ settled)),
      λ h. elim h [ inl k ↦ absurd (ground arith) | inr k ↦ cc ],
    );
  }

  rejected-IsCoherent :
      (n : NegotiationResult) (why : PlanError)
      → n.requires_clarification ≡ false
      → status_code (reject_plan d e n why) ≡ 200
      → IsCoherent (reject_plan d e n why)
  unfolding reject_plan response_body
  rejected-IsCoherent n why settled code = record {
    permission = ap (leb 400) code;
    approval = (λ h. absurd (ground arith), λ h. cc);
    planning = (λ h. cc, λ h. elim h [ inl k ↦ cc | inr k ↦ cc ]);
    clarification = (
      λ h. absurd (true_ne_false (sym h ∙ settled)),
      λ h. elim h [ inl k ↦ absurd (ground arith) | inr k ↦ cc ],
    );
  }

  made-IsCoherent :
      (n : NegotiationResult) (p : ExecutionPlan) (waits : Bool)
      → n.requires_clarification ≡ false
      → n.policy_decision.requires_approval ≡ waits
      → p.approval_required ≡ waits
      → status_code (accept_plan d e n p) ≡ (if waits then 202 else 200)
      → IsCoherent (accept_plan d e n p)
  unfolding accept_plan response_body
  made-IsCoherent n p true settled asks waits code =
      let outcome =
        if-true n.policy_decision.requires_approval OutcomeSummary.pending_approval
          OutcomeSummary.success asks in
      record {
        permission = ap (leb 400) code;
        approval = (λ h. waits, λ h. code);
        planning = (λ h. inr outcome, λ h. refl);
        clarification = (
          λ h. absurd (true_ne_false (sym h ∙ settled)),
          λ h. elim h [ inl k ↦ absurd (ground arith) | inr k ↦ cc ],
        );
      }
  made-IsCoherent n p false settled asks waits code =
      let outcome =
        if-false n.policy_decision.requires_approval OutcomeSummary.pending_approval
          OutcomeSummary.success asks in
      record {
        permission = ap (leb 400) code;
        approval = (λ h. absurd (ground arith), λ h. absurd (true_ne_false (sym h ∙ waits)));
        planning = (λ h. inl outcome, λ h. refl);
        clarification = (
          λ h. absurd (true_ne_false (sym h ∙ settled)),
          λ h. elim h [ inl k ↦ absurd (ground arith) | inr k ↦ cc ],
        );
      }

  IsCoherent-IsBranch : (r : BrokerResult) → IsBranch lower enforce s d e r → IsCoherent r
  IsCoherent-IsBranch r (refused errors some_error unaccepted) =
      refused-IsCoherent errors (status-refused lower enforce s d e errors some_error)
  IsCoherent-IsBranch r (asked accepted asks) =
      asked-IsCoherent (match lower s e) asks (status-asked lower enforce s d e (match lower s e))
  IsCoherent-IsBranch r (denied accepted settled forbids) =
      let n = decision lower enforce s d e in
      denied-IsCoherent n (asks-evaluate enforce e (match lower s e) ∙ settled)
        (status-denied lower enforce s d e n)
  IsCoherent-IsBranch r (rejected why accepted settled allowed) =
      let n = decision lower enforce s d e in
      rejected-IsCoherent n why (asks-evaluate enforce e (match lower s e) ∙ settled)
        (status-rejected lower enforce s d e n why)
  IsCoherent-IsBranch r (made p accepted settled allowed approval) =
      let n = decision lower enforce s d e in
      made-IsCoherent n p p.approval_required (asks-evaluate enforce e (match lower s e) ∙ settled)
        approval refl (status-made lower enforce s d e n p approval)

  -- The body that answers a submission agrees with its status code: policy is denied exactly in
  -- errors, approval is required exactly with 202, a plan is named exactly in a success or a pending
  -- approval, and clarification is required exactly if the broker asks for it or with 400.
  pub response_body-IsCoherent : IsCoherent (process_intent lower enforce s d e)
  response_body-IsCoherent =
      IsCoherent-IsBranch (process_intent lower enforce s d e)
        (process_intent-IsBranch lower enforce s d e)
