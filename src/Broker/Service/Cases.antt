-- ===== src/Broker/Service/Cases.antt =====
-- The responses of `submit_intent` (sip/broker/service.py) as a case distinction.
use semantic_intent_protocol.Base.{
  ◌∙◌, if◌then◌else◌, false, inr, ap, leb, ◌⊎◌, ◌≡◌, inl, refl, Bool, String, true,
}
use semantic_intent_protocol.Broker.Handlers.{BrokerResult, process_intent, Draws}
use semantic_intent_protocol.Broker.Handlers.Branches.{
  made, rejected, denied, asked, decision, refused, IsBranch, process_intent-IsBranch,
}
use semantic_intent_protocol.Broker.Service.{status_code}
use semantic_intent_protocol.Broker.Service.Status.{
  status-made, status-rejected, status-denied, status-asked, status-refused,
}
use semantic_intent_protocol.Envelope.Models.{IntentEnvelope}
use semantic_intent_protocol.Envelope.Validator.Accepted.{IsAccepted}
use semantic_intent_protocol.Negotiation.Matcher.{match}
use semantic_intent_protocol.Registry.Storage.{CapabilityStore}

module _ (lower : String → String) (enforce : Bool) (s : CapabilityStore) (d : Draws)
    (e : IntentEnvelope) where
  -- The envelope is accepted, and the broker asks for clarification or the policy allows the intent.
  pub record IsServed : Type 0 where
    pub accepted : IsAccepted d.checked_at e
    pub granted :
        ((match lower s e).requires_clarification ≡ true)
        ⊎ ((decision lower enforce s d e).policy_decision.allowed ≡ true)

  -- The envelope is accepted, and the policy denies the intent for what the matcher selects.
  pub record IsForbidden : Type 0 where
    pub accepted : IsAccepted d.checked_at e
    pub settled : (match lower s e).requires_clarification ≡ false
    pub forbids : (decision lower enforce s d e).policy_decision.allowed ≡ false

  pub data StatusCase (r : BrokerResult) : Type 0 where
    bad_request : status_code r ≡ 400 → (IsAccepted d.checked_at e → ⊥) → StatusCase r
    forbidden : status_code r ≡ 403 → IsForbidden → StatusCase r
    served : leb 400 (status_code r) ≡ false → IsServed → StatusCase r

  StatusCase-IsBranch : (r : BrokerResult) → IsBranch lower enforce s d e r → StatusCase r
  StatusCase-IsBranch r (refused errors some_error unaccepted) =
      bad_request (status-refused lower enforce s d e errors some_error) unaccepted
  StatusCase-IsBranch r (asked accepted asks) =
      served (ap (leb 400) (status-asked lower enforce s d e (match lower s e)))
        (record { accepted = accepted; granted = inl asks })
  StatusCase-IsBranch r (denied accepted settled forbids) =
      forbidden (status-denied lower enforce s d e (decision lower enforce s d e))
        (record { accepted = accepted; settled = settled; forbids = forbids })
  StatusCase-IsBranch r (rejected why accepted settled allowed) =
      served (ap (leb 400) (status-rejected lower enforce s d e (decision lower enforce s d e) why))
        (record { accepted = accepted; granted = inr allowed })
  StatusCase-IsBranch r (made p accepted settled allowed approval) =
      served
        (ap (leb 400) (status-made lower enforce s d e (decision lower enforce s d e) p approval)
          ∙ below p.approval_required)
        (record { accepted = accepted; granted = inr allowed })
    where
      below : (waits : Bool) → leb 400 (if waits then 202 else 200) ≡ false
      below true = refl
      below false = refl

  pub process_intent-StatusCase : StatusCase (process_intent lower enforce s d e)
  process_intent-StatusCase =
      StatusCase-IsBranch (process_intent lower enforce s d e)
        (process_intent-IsBranch lower enforce s d e)
