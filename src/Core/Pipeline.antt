-- ===== src/Core/Pipeline.antt =====
-- `SIPPipeline.process` (sip/core/pipeline.py). The policy engine is an argument, as it is of the
-- constructor. The state is the audit log.
pub mod Branches
pub mod Record
pub mod Agreement
pub mod Safety
pub mod Success
use semantic_intent_protocol.Base.{
  [], ok, err, not, if◌then◌else◌, map, ◌++◌, List, Dict, Option, String, Value, ◌∷◌, none, some,
  false,
}
use semantic_intent_protocol.Core.Bundle.{
  PipelineNotes, last_of, denied_bundle, stub_normalized, DecisionBundle, PipelineAudit,
  PipelineDraws, build_denial_audit, success_audit,
}
use semantic_intent_protocol.Core.FailClosed.{StructuredDenial}
use semantic_intent_protocol.Core.Intent.{from_envelope, NormalizedIntent}
use semantic_intent_protocol.Core.Planner.{plan_normalized}
use semantic_intent_protocol.Envelope.Models.{IntentEnvelope}
use semantic_intent_protocol.Envelope.Validator.{validate_envelope, ValidationError}
use semantic_intent_protocol.Negotiation.Planner.{ExecutionPlan}
use semantic_intent_protocol.Observability.Audit.{ActionTaken}
use semantic_intent_protocol.Policy.Interface.{
  CanonicalNote, PolicyReason, PolicyResult, ReasonCode, deny_result,
}
use semantic_intent_protocol.Registry.Models.{CapabilityDescriptor}
use mathlib.Core.Option

-- What a call gives: the record that it appends, and the bundle, or `none` where it raises.
pub record Turn : Type 0 where
  pub audit : PipelineAudit
  pub bundle : Option DecisionBundle

abbrev pub issue : DecisionBundle → Turn
issue b = record { audit = b.audit_record; bundle = some b }

abbrev deny_with :
    PipelineDraws
    → IntentEnvelope
    → NormalizedIntent
    → PolicyResult
    → ActionTaken
    → PipelineNotes
    → DecisionBundle
deny_with d e i r action notes = denied_bundle i r (build_denial_audit d e (some i) r action notes)

-- The branch of a normalization that failed: the record is appended before the stub is built.
pub refuse_unnormalized : PipelineDraws → IntentEnvelope → Turn
unfolding build_denial_audit stub_normalized denied_bundle
refuse_unnormalized d e =
    let r = deny_result ReasonCode.evaluation_error PolicyReason.normalization_failed [] in
    let a =
      build_denial_audit d e none r ActionTaken.validation_failed
        PipelineNotes.normalization_error in
    record {
      audit = a;
      bundle = Option.map (λ i. denied_bundle i r a) (stub_normalized d.stubbed_at e);
    }

-- The branch of an envelope that is not valid.
pub refuse_invalid :
    PipelineDraws → IntentEnvelope → NormalizedIntent → List ValidationError → DecisionBundle
unfolding build_denial_audit denied_bundle
refuse_invalid d e i errors =
    deny_with d e i
      (deny_result ReasonCode.evaluation_error (PolicyReason.validation_failed errors)
        (map CanonicalNote.validation_message errors))
      ActionTaken.validation_failed (PipelineNotes.validation_errors errors)

pub refuse_denied :
    PipelineDraws → IntentEnvelope → NormalizedIntent → PolicyResult → DecisionBundle
unfolding build_denial_audit denied_bundle last_of
refuse_denied d e i r =
    deny_with d e i r ActionTaken.policy_denied
      (PipelineNotes.evaluation_notes (last_of 5 r.evaluation_notes))

-- The branch of a planner that raised.
pub refuse_unplanned :
    PipelineDraws → IntentEnvelope → NormalizedIntent → StructuredDenial → DecisionBundle
unfolding build_denial_audit denied_bundle
refuse_unplanned d e i denial =
    deny_with d e i
      (deny_result denial.reason_code denial.reason
        (CanonicalNote.denial_message denial.reason ∷ []))
      ActionTaken.plan_rejected (PipelineNotes.denial_reason denial.reason)

unfoldable pub hand_over :
    PipelineDraws
    → IntentEnvelope
    → NormalizedIntent
    → PolicyResult
    → ExecutionPlan
    → DecisionBundle
unfolding success_audit
hand_over d e i r p = record {
  normalized_intent = i;
  policy_result = r;
  execution_plan = some p;
  audit_record = success_audit d e i r p;
  denied = false;
  metadata = [];
}

-- Stages 4 to 7.
pub decide_on :
    PipelineDraws
    → IntentEnvelope
    → NormalizedIntent
    → List CapabilityDescriptor
    → PolicyResult
    → DecisionBundle
unfolding refuse_denied refuse_unplanned hand_over
decide_on d e i cs r =
    if not r.allowed
    then refuse_denied d e i r
    else elim (plan_normalized d.plan_id d.span_id i r cs) [
      | err denial ↦ refuse_unplanned d e i denial
      | ok p ↦ hand_over d e i r p
    ]

module _ (text_of : Value → String) (model_dump : IntentEnvelope → Dict Value)
    (evaluate : NormalizedIntent → List CapabilityDescriptor → PolicyResult) where
  -- Stages 3 to 7, of an intent that is normalized.
  pub judge :
      PipelineDraws → List CapabilityDescriptor → IntentEnvelope → NormalizedIntent → DecisionBundle
  unfolding refuse_invalid decide_on
  judge d cs e i =
      let v = validate_envelope d.checked_at e in
      if not v.valid then refuse_invalid d e i v.errors else decide_on d e i cs (evaluate i cs)

  pub turn : PipelineDraws → List CapabilityDescriptor → IntentEnvelope → Turn
  unfolding refuse_unnormalized judge
  turn d cs e = elim (from_envelope text_of model_dump d.normalized_at e) [
    | none ↦ refuse_unnormalized d e
    | some i ↦ issue (judge d cs e i)
  ]

  unfoldable pub process :
      PipelineDraws
      → List CapabilityDescriptor
      → IntentEnvelope
      → List PipelineAudit
      → Option DecisionBundle × List PipelineAudit
  unfolding turn
  process d cs e log = let t = turn d cs e in (t.bundle, log ++ (t.audit ∷ []))
