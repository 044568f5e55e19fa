-- ===== src/Core/Pipeline/Record.antt =====
-- The record of `SIPPipeline.process`, and where it raises.
use semantic_intent_protocol.Base.{
  ap, is_some, Bool, sym, false, [], none, subst-some, Option, ◌++◌, List, not, Dict, ◌≡◌, String,
  Value, ◌∷◌, some, refl,
}
use semantic_intent_protocol.Core.Bundle.{
  stub_normalized, denied_bundle, success_audit, build_denial_audit, PipelineAudit, PipelineDraws,
  DecisionBundle,
}
use semantic_intent_protocol.Core.Intent.{NormalizedIntent}
use semantic_intent_protocol.Core.Pipeline.{
  hand_over, turn, refuse_unplanned, refuse_denied, refuse_invalid, process, refuse_unnormalized,
  Turn,
}
use semantic_intent_protocol.Core.Pipeline.Branches.{
  planned, unplanned, denied, invalid, unnormalized, IsTurn, turn-IsTurn,
}
use semantic_intent_protocol.Envelope.Models.{IntentEnvelope}
use semantic_intent_protocol.Policy.Interface.{PolicyReason, ReasonCode, deny_result, PolicyResult}
use semantic_intent_protocol.Registry.Models.{CapabilityDescriptor}
use mathlib.Core.Option

-- Whether a call returns a bundle with a plan.
abbrev pub returns_plan : Option DecisionBundle → Bool
returns_plan none = false
returns_plan (some b) = is_some b.execution_plan

-- What the record of a call says of the envelope, and that a bundle holds the record.
pub record IsRecordOf (e : IntentEnvelope) (t : Turn) : Type 0 where
  pub intent_id : t.audit.intent_id ≡ e.intent_id
  pub trace_id : t.audit.trace_id ≡ e.trace_id
  pub actor_id : t.audit.actor_id ≡ e.actor.actor_id
  pub allowed : t.audit.policy_allowed ≡ returns_plan t.bundle
  pub denial : t.audit.pre_execution_denial ≡ not (returns_plan t.bundle)
  pub shared : (b : DecisionBundle) → t.bundle ≡ some b → b.audit_record ≡ t.audit

module _ (text_of : Value → String) (model_dump : IntentEnvelope → Dict Value)
    (evaluate : NormalizedIntent → List CapabilityDescriptor → PolicyResult) where
  IsTurn-IsRecordOf :
      (d : PipelineDraws) (cs : List CapabilityDescriptor) (e : IntentEnvelope) (t : Turn)
      → IsTurn text_of model_dump evaluate d cs e t
      → IsRecordOf e t
  unfolding refuse_unnormalized refuse_invalid refuse_denied refuse_unplanned hand_over
      build_denial_audit success_audit denied_bundle
  IsTurn-IsRecordOf d cs e t (unnormalized h) = record {
    intent_id = refl;
    trace_id = refl;
    actor_id = refl;
    allowed = sym (no_plan (stub_normalized d.stubbed_at e));
    denial = ap not (sym (no_plan (stub_normalized d.stubbed_at e)));
    shared = λ b k. by_stub (stub_normalized d.stubbed_at e) b k;
  }
    where
      no_plan :
          (o : Option NormalizedIntent)
          → returns_plan (
              Option.map
                (λ i.
                  denied_bundle i
                    (deny_result ReasonCode.evaluation_error PolicyReason.normalization_failed [])
                    (refuse_unnormalized d e).audit)
                o)
            ≡ false
      no_plan none = refl
      no_plan (some i) = refl

      by_stub :
          (o : Option NormalizedIntent) (b : DecisionBundle)
          → Option.map
              (λ i.
                denied_bundle i
                  (deny_result ReasonCode.evaluation_error PolicyReason.normalization_failed [])
                  (refuse_unnormalized d e).audit)
              o
            ≡ some b
          → b.audit_record ≡ (refuse_unnormalized d e).audit
      by_stub none b k = cc
      by_stub (some i) b k =
          subst-some (λ x. x.audit_record ≡ (refuse_unnormalized d e).audit) _ b k refl
  IsTurn-IsRecordOf d cs e t (invalid i h v) = record {
    intent_id = refl;
    trace_id = refl;
    actor_id = refl;
    allowed = refl;
    denial = refl;
    shared = λ b m. subst-some (λ x. x.audit_record ≡ t.audit) _ b m refl;
  }
  IsTurn-IsRecordOf d cs e t (denied i h v a) = record {
    intent_id = refl;
    trace_id = refl;
    actor_id = refl;
    allowed = refl;
    denial = refl;
    shared = λ b m. subst-some (λ x. x.audit_record ≡ t.audit) _ b m refl;
  }
  IsTurn-IsRecordOf d cs e t (unplanned i denial h k) = record {
    intent_id = refl;
    trace_id = refl;
    actor_id = refl;
    allowed = refl;
    denial = refl;
    shared = λ b m. subst-some (λ x. x.audit_record ≡ t.audit) _ b m refl;
  }
  IsTurn-IsRecordOf d cs e t (planned i p h v a k) = record {
    intent_id = refl;
    trace_id = refl;
    actor_id = refl;
    allowed = refl;
    denial = refl;
    shared = λ b m. subst-some (λ x. x.audit_record ≡ t.audit) _ b m refl;
  }

  -- Each call appends one record to the log and changes nothing else of it, also where it raises.
  -- The record carries the envelope's intent, trace and actor, says that policy allowed the intent
  -- if the call returns a bundle with a plan and else marks a denial, never both, and is the record
  -- of the bundle that is returned.
  pub process-IsRecordOf :
      (d : PipelineDraws) (cs : List CapabilityDescriptor) (e : IntentEnvelope)
      (log : List PipelineAudit)
      → (t : Turn) × IsRecordOf e t
        × (process text_of model_dump evaluate d cs e log ≡ (t.bundle, log ++ (t.audit ∷ [])))
  unfolding process
  process-IsRecordOf d cs e log =
      let t = turn text_of model_dump evaluate d cs e in
      (t, IsTurn-IsRecordOf d cs e t (turn-IsTurn text_of model_dump evaluate d cs e), refl)
