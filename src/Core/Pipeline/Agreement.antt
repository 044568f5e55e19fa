-- ===== src/Core/Pipeline/Agreement.antt =====
-- The bundle of `SIPPipeline.process`: its flags, and when there is none.
use mathlib.Core.Option.{Option}
use semantic_intent_protocol.Base.{
  false, [], sym, ap, if◌then◌else◌, Bool, subst-some, ◌∙◌, true, arith, List, ◌||◌, is_blank, Dict,
  is_some, ℤ, not, String, ◌≡◌, Value, none, some, refl,
}
use semantic_intent_protocol.Core.Bundle.{
  or_unknown, denied_bundle, success_audit, build_denial_audit, PipelineAudit, PipelineDraws,
  is_allowed, stub_fields, DecisionBundle, stub_normalized,
}
use semantic_intent_protocol.Core.Intent.{from_envelope, NormalizedIntent, validated}
use semantic_intent_protocol.Core.Intent.Complete.{from_envelope-IsComplete, IsComplete}
use semantic_intent_protocol.Core.Pipeline.{
  hand_over, refuse_unplanned, turn, Turn, refuse_denied, refuse_invalid, process,
  refuse_unnormalized,
}
use semantic_intent_protocol.Core.Pipeline.Branches.{
  planned, unplanned, denied, invalid, turn-IsTurn, unnormalized, IsTurn,
}
use semantic_intent_protocol.Envelope.Models.{IntentEnvelope}
use semantic_intent_protocol.Policy.Interface.{PolicyReason, ReasonCode, deny_result, PolicyResult}
use semantic_intent_protocol.Registry.Models.{CapabilityDescriptor}
use mathlib.Core.Option

-- The flags of a bundle, of its policy decision and of its record agree with the plan.
pub record IsCoherent (b : DecisionBundle) : Type 0 where
  pub denied : b.denied ≡ not (is_some b.execution_plan)
  pub allowed : is_allowed b ≡ is_some b.execution_plan
  pub policy : b.policy_result.allowed ≡ is_some b.execution_plan
  pub audit : b.audit_record.policy_allowed ≡ is_some b.execution_plan

is_blank-or_unknown : (t : String) → is_blank (or_unknown t) ≡ false
is_blank-or_unknown String.[] = refl
is_blank-or_unknown (String.◌∷◌ c t) = refl

abbrev is_unnamed : IntentEnvelope → Bool
is_unnamed e = is_blank e.intent_id || (is_blank e.trace_id || is_blank e.actor.actor_id)

is_some-stub_normalized :
    (now : ℤ) (e : IntentEnvelope) → is_some (stub_normalized now e) ≡ not (is_unnamed e)
unfolding stub_normalized validated stub_fields
is_some-stub_normalized now e =
    without_goal (is_blank e.intent_id) (is_blank e.trace_id) (is_blank e.actor.actor_id)
      (is_blank (or_unknown e.desired_outcome.summary)) (stub_fields now e)
      (is_blank-or_unknown e.desired_outcome.summary)
  where
    without_goal :
        (p q s g : Bool) (i : NormalizedIntent)
        → g ≡ false
        → is_some (if p || (q || (g || s)) then none else some i) ≡ not (p || (q || s))
    without_goal p q s g i h = ground arith

named : (e : IntentEnvelope) → IsComplete e → is_unnamed e ≡ false
named e w = ground (arith, w.intent_id, w.trace_id, w.actor_id)

is_some-map : {A B : Type 0} (f : A → B) (o : Option A) → is_some (Option.map f o) ≡ is_some o
is_some-map f none = refl
is_some-map f (some a) = refl

module _ (text_of : Value → String) (model_dump : IntentEnvelope → Dict Value)
    (evaluate : NormalizedIntent → List CapabilityDescriptor → PolicyResult) where
  IsTurn-IsCoherent :
      (d : PipelineDraws) (cs : List CapabilityDescriptor) (e : IntentEnvelope) (t : Turn)
      → IsTurn text_of model_dump evaluate d cs e t
      → (b : DecisionBundle) → t.bundle ≡ some b
      → IsCoherent b
  unfolding refuse_unnormalized refuse_invalid refuse_denied refuse_unplanned hand_over
      build_denial_audit success_audit denied_bundle
  IsTurn-IsCoherent d cs e t (unnormalized h) b k = by_stub (stub_normalized d.stubbed_at e) k
    where
      by_stub :
          (o : Option NormalizedIntent)
          → Option.map
              (λ i.
                denied_bundle i
                  (deny_result ReasonCode.evaluation_error PolicyReason.normalization_failed [])
                  (refuse_unnormalized d e).audit)
              o
            ≡ some b
          → IsCoherent b
      by_stub none k = cc
      by_stub (some i) k =
          subst-some IsCoherent _ b k
            (record { denied = refl; allowed = refl; policy = refl; audit = refl })
  IsTurn-IsCoherent d cs e t (invalid i h v) b k =
      subst-some IsCoherent _ b k
        (record { denied = refl; allowed = refl; policy = refl; audit = refl })
  IsTurn-IsCoherent d cs e t (denied i h v a) b k =
      subst-some IsCoherent _ b k
        (record { denied = refl; allowed = refl; policy = a; audit = refl })
  IsTurn-IsCoherent d cs e t (unplanned i denial h v) b k =
      subst-some IsCoherent _ b k
        (record { denied = refl; allowed = refl; policy = refl; audit = refl })
  IsTurn-IsCoherent d cs e t (planned i p h v a g) b k =
      subst-some IsCoherent _ b k
        (record { denied = refl; allowed = refl; policy = a; audit = refl })

  -- A bundle that is returned has a plan exactly if it is not marked as denied, if it is allowed, if
  -- its policy decision allows the intent, and if its record says so.
  pub process-IsCoherent :
      (d : PipelineDraws) (cs : List CapabilityDescriptor) (e : IntentEnvelope)
      (log : List PipelineAudit) (b : DecisionBundle)
      → (process text_of model_dump evaluate d cs e log).0 ≡ some b
      → IsCoherent b
  unfolding process
  process-IsCoherent d cs e log b h =
      IsTurn-IsCoherent d cs e (turn text_of model_dump evaluate d cs e)
        (turn-IsTurn text_of model_dump evaluate d cs e) b h

  returned :
      (d : PipelineDraws) (e : IntentEnvelope) (i : NormalizedIntent)
      → from_envelope text_of model_dump d.normalized_at e ≡ some i
      → true ≡ not (is_unnamed e)
  returned d e i h =
      let (complete, k) = from_envelope-IsComplete text_of model_dump d.normalized_at e in
      ap not (sym (named e (complete (i, h))))

  is_some-turn :
      (d : PipelineDraws) (cs : List CapabilityDescriptor) (e : IntentEnvelope) (t : Turn)
      → IsTurn text_of model_dump evaluate d cs e t
      → is_some t.bundle ≡ not (is_unnamed e)
  unfolding refuse_unnormalized
  is_some-turn d cs e t (unnormalized h) = is_some-map _ _ ∙ is_some-stub_normalized d.stubbed_at e
  is_some-turn d cs e t (invalid i h v) = returned d e i h
  is_some-turn d cs e t (denied i h v a) = returned d e i h
  is_some-turn d cs e t (unplanned i denial h v) = returned d e i h
  is_some-turn d cs e t (planned i p h v a g) = returned d e i h

  -- A call returns a bundle exactly when the envelope's intent id, its trace id and its actor's id
  -- are not empty, and raises otherwise.
  pub is_some-process :
      (d : PipelineDraws) (cs : List CapabilityDescriptor) (e : IntentEnvelope)
      (log : List PipelineAudit)
      → is_some (process text_of model_dump evaluate d cs e log).0
        ≡ not (is_blank e.intent_id || (is_blank e.trace_id || is_blank e.actor.actor_id))
  unfolding process
  is_some-process d cs e log =
      is_some-turn d cs e (turn text_of model_dump evaluate d cs e)
        (turn-IsTurn text_of model_dump evaluate d cs e)
