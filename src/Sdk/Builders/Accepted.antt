-- ===== src/Sdk/Builders/Accepted.antt =====
-- Which of the envelopes that `build_intent_envelope` (sip/sdk/builders.py) builds are accepted.
use mathlib.Core.Path.{sym, subst}
use semantic_intent_protocol.Base.{
  refl, Value, ok-bind, ◌↔◌, Dict, ok, ◌≡◌, ◌≤◌, ℤ, Option, none, some, [], ◌∷◌,
}
use semantic_intent_protocol.Envelope.Enums.{
  determinism_value, operation_classes, operation_class_value, DeterminismLevel, DataSensitivity,
  trust_order, OperationClass, TrustLevel,
}
use semantic_intent_protocol.Envelope.Models.{TargetDescriptor, IntentEnvelope, Constraints}
use semantic_intent_protocol.Envelope.Validator.Accepted.{
  IsAccepted, AreDisjoint, IsOptionalProvenanceAccepted, MayOperate, IsOptionalNotBelowZero,
  IsOptionalNonNegative,
}
use semantic_intent_protocol.Sdk.Arguments.{
  or_empty, require_keys, determinism_levels, require_filled, sensitivities, sensitivity_value,
  enum_argument, EnumArgument,
}
use semantic_intent_protocol.Sdk.Builders.{
  constraints_of, build_target, envelope_of, EnvelopeArguments, build_constraints,
  default_constraints, EnvelopeDraws, build_intent_envelope,
}

-- What the parts of a built envelope are.
record IsBuilt (d : EnvelopeDraws) (a : EnvelopeArguments) (e : IntentEnvelope) : Type 0 where
  op : OperationClass
  target : TargetDescriptor
  constraints : Constraints
  extensions : Dict Value
  constrained :
      build_constraints a.constraints a.data_sensitivity a.determinism_required ≡ ok constraints
  composed : envelope_of d a op target constraints extensions ≡ e

built :
    (d : EnvelopeDraws) (a : EnvelopeArguments) (e : IntentEnvelope)
    → build_intent_envelope d a ≡ ok e
    → IsBuilt d a e
unfolding build_intent_envelope
built d a e h =
    let (op, h1, k1) =
      ok-bind
        (enum_argument operation_class_value operation_classes "IntentEnvelope" a.operation_class) _
        e h in
    let (target, h2, k2) = ok-bind (build_target a.target_type a.target_id none) _ e k1 in
    let (u, h3, k3) =
      ok-bind
        (require_filled "IntentEnvelope"
          (("intent_name", a.intent_name) ∷ ("intent_domain", a.intent_domain) ∷ []))
        _ e k2 in
    let (v, h4, k4) =
      ok-bind (require_filled "IntentEnvelope" (("summary", a.outcome_summary) ∷ [])) _ e k3 in
    let (constraints, h5, k5) =
      ok-bind (build_constraints a.constraints a.data_sensitivity a.determinism_required) _ e k4 in
    let (extensions, h6, k6) =
      ok-bind (require_keys "IntentEnvelope" (or_empty a.extensions)) _ e k5 in
    record {
      op = op;
      target = target;
      constraints = constraints;
      extensions = extensions;
      constrained = h5;
      composed = cc;
    }

-- What the protocol asks of constraints.
pub record IsFeasible (c : Constraints) : Type 0 where
  pub time_budget : IsOptionalNonNegative c.time_budget_ms
  pub cost_budget : IsOptionalNotBelowZero c.cost_budget
  pub actions : AreDisjoint c.allowed_actions c.forbidden_actions

abbrev pub IsOptionalFeasible : Option Constraints → Type 0
IsOptionalFeasible none = Unit
IsOptionalFeasible (some c) = IsFeasible c

-- What the caller has to provide for an envelope that is accepted.
pub record IsAdmissible (now : ℤ) (a : EnvelopeArguments) (e : IntentEnvelope) : Type 0 where
  pub trusted : trust_order TrustLevel.internal ≤ trust_order a.actor.trust_level
  pub feasible : IsOptionalFeasible a.constraints
  pub provenance : IsOptionalProvenanceAccepted now e a.provenance

default-IsFeasible :
    (sensitivity : EnumArgument DataSensitivity) (determinism : EnumArgument DeterminismLevel)
    (c : Constraints)
    → default_constraints sensitivity determinism ≡ ok c
    → IsFeasible c
unfolding default_constraints
default-IsFeasible sensitivity determinism c h =
    let (s, h1, k1) =
      ok-bind (enum_argument sensitivity_value sensitivities "IntentEnvelope" sensitivity) _ c h in
    let (l, h2, k2) =
      ok-bind (enum_argument determinism_value determinism_levels "IntentEnvelope" determinism) _ c
        k1 in
    let same : constraints_of s l ≡ c = cc in
    subst IsFeasible same (record { time_budget = tt; cost_budget = tt; actions = λ a m. absurd m })

IsFeasible-build_constraints :
    (given : Option Constraints) (sensitivity : EnumArgument DataSensitivity)
    (determinism : EnumArgument DeterminismLevel) (c : Constraints)
    → build_constraints given sensitivity determinism ≡ ok c
    → IsFeasible c ↔ IsOptionalFeasible given
unfolding build_constraints
IsFeasible-build_constraints none sensitivity determinism c h =
    (λ f. tt, λ u. default-IsFeasible sensitivity determinism c h)
IsFeasible-build_constraints (some given) sensitivity determinism c h =
    let same : given ≡ c = cc in (subst IsFeasible (sym same), subst IsFeasible same)

operates :
    (op : OperationClass) (t : TrustLevel)
    → trust_order TrustLevel.internal ≤ trust_order t
    → MayOperate op t
operates OperationClass.read t h = tt
operates OperationClass.write t h = h
operates OperationClass.execute t h = h
operates OperationClass.analyze t h = tt
operates OperationClass.retrieve t h = tt
operates OperationClass.delegate t h = tt

-- An envelope that `build_intent_envelope` returns is accepted exactly if the actor's trust level
-- is at least internal, the constraints that were given, if any, are not negative and do not
-- conflict, and the provenance is accepted for the envelope. No envelope of a public actor is.
pub build_intent_envelope-IsAccepted :
    (now : ℤ) (d : EnvelopeDraws) (a : EnvelopeArguments) (e : IntentEnvelope)
    → build_intent_envelope d a ≡ ok e
    → IsAccepted now e ↔ IsAdmissible now a e
build_intent_envelope-IsAccepted now d a e h =
    let b = built d a e h in
    subst (λ x. IsAccepted now x ↔ IsAdmissible now a x) b.composed
      (let (given, feasible) =
          IsFeasible-build_constraints a.constraints a.data_sensitivity a.determinism_required
            b.constraints b.constrained in
        (
          λ k. record {
            trusted = k.declared;
            feasible = given (record {
              time_budget = k.time_budget;
              cost_budget = k.cost_budget;
              actions = k.actions;
            });
            provenance = k.provenance;
          },
          λ k. record {
            version = refl;
            declared = k.trusted;
            time_budget = (feasible k.feasible).time_budget;
            cost_budget = (feasible k.feasible).cost_budget;
            actions = (feasible k.feasible).actions;
            operation = operates b.op a.actor.trust_level k.trusted;
            provenance = k.provenance;
          },
        ))
