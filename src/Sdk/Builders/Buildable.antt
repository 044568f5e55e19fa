-- ===== src/Sdk/Builders/Buildable.antt =====
-- When the builders of sip/sdk/builders.py raise.
use semantic_intent_protocol.Base.{
  [], refl, none, err, ok, ◌↔◌, Result, ◌∷◌, some, inl, inr, In, Option, String, ◌>>=◌,
}
use semantic_intent_protocol.Envelope.Enums.{
  operation_class_value, determinism_value, operation_classes, OperationClass, TargetType,
  DataSensitivity, DeterminismLevel,
}
use semantic_intent_protocol.Envelope.Models.{Constraints}
use semantic_intent_protocol.Extensions.{validate_extension_keys}
use semantic_intent_protocol.Sdk.Arguments.{
  require_keys, require_filled, or_empty, enum_argument, target_type_value, determinism_levels,
  sensitivities, target_types, sensitivity_value, EnumArgument,
}
use semantic_intent_protocol.Sdk.Arguments.Laws.{
  require_keys-Succeeds, require_filled-Succeeds, enum_argument-Succeeds, AreFilled, Succeeds-bind,
  Succeeds, NamesMember,
}
use semantic_intent_protocol.Sdk.Builders.{
  envelope_of, constraints_of, build_constraints, default_constraints, EnvelopeArguments,
  EnvelopeDraws, build_intent_envelope, build_target,
}

In-operation_classes : (a : OperationClass) → In a operation_classes
In-operation_classes OperationClass.read = inl refl
In-operation_classes OperationClass.write = inr (inl refl)
In-operation_classes OperationClass.execute = inr (inr (inl refl))
In-operation_classes OperationClass.analyze = inr (inr (inr (inl refl)))
In-operation_classes OperationClass.retrieve = inr (inr (inr (inr (inl refl))))
In-operation_classes OperationClass.delegate = inr (inr (inr (inr (inr (inl refl)))))

In-target_types : (a : TargetType) → In a target_types
In-target_types TargetType.capability = inl refl
In-target_types TargetType.agent = inr (inl refl)
In-target_types TargetType.service = inr (inr (inl refl))
In-target_types TargetType.registry = inr (inr (inr (inl refl)))
In-target_types TargetType.broadcast = inr (inr (inr (inr (inl refl))))

In-sensitivities : (a : DataSensitivity) → In a sensitivities
In-sensitivities DataSensitivity.public = inl refl
In-sensitivities DataSensitivity.internal = inr (inl refl)
In-sensitivities DataSensitivity.confidential = inr (inr (inl refl))
In-sensitivities DataSensitivity.restricted = inr (inr (inr (inl refl)))

In-determinism_levels : (a : DeterminismLevel) → In a determinism_levels
In-determinism_levels DeterminismLevel.strict = inl refl
In-determinism_levels DeterminismLevel.bounded = inr (inl refl)
In-determinism_levels DeterminismLevel.advisory = inr (inr (inl refl))

-- The texts of the constraints count only where no constraints are given.
abbrev pub AreConstraintsNamed :
    Option Constraints → EnumArgument DataSensitivity → EnumArgument DeterminismLevel → Type 0
AreConstraintsNamed none sensitivity determinism =
    NamesMember sensitivity_value sensitivity × NamesMember determinism_value determinism
AreConstraintsNamed (some given) sensitivity determinism = Unit

-- The arguments for which an envelope is built.
pub record IsBuildable (a : EnvelopeArguments) : Type 0 where
  pub operation : NamesMember operation_class_value a.operation_class
  pub target : NamesMember target_type_value a.target_type
  pub intent : AreFilled (("intent_name", a.intent_name) ∷ ("intent_domain", a.intent_domain) ∷ [])
  pub outcome : AreFilled (("summary", a.outcome_summary) ∷ [])
  pub constraints : AreConstraintsNamed a.constraints a.data_sensitivity a.determinism_required
  pub keys : Succeeds (validate_extension_keys (or_empty a.extensions))

-- A step that changes what its argument gives.
Succeeds-ok :
    {E A B : Type 0} (r : Result E A) (f : A → B) (P : Type 0)
    → Succeeds r ↔ P
    → Succeeds (r >>= λ a. ok (f a)) ↔ P
Succeeds-ok (ok a) f P h = h
Succeeds-ok (err x) f P h = h

default_constraints-Succeeds :
    (sensitivity : EnumArgument DataSensitivity) (determinism : EnumArgument DeterminismLevel)
    → Succeeds (default_constraints sensitivity determinism)
      ↔ (NamesMember sensitivity_value sensitivity × NamesMember determinism_value determinism)
unfolding default_constraints
default_constraints-Succeeds sensitivity determinism =
    Succeeds-bind (enum_argument sensitivity_value sensitivities "IntentEnvelope" sensitivity) _ _ _
      (enum_argument-Succeeds sensitivity_value sensitivities In-sensitivities "IntentEnvelope"
        sensitivity)
      (λ s.
        Succeeds-ok
          (enum_argument determinism_value determinism_levels "IntentEnvelope" determinism)
          (constraints_of s) _
          (enum_argument-Succeeds determinism_value determinism_levels In-determinism_levels
            "IntentEnvelope" determinism))

build_constraints-Succeeds :
    (given : Option Constraints) (sensitivity : EnumArgument DataSensitivity)
    (determinism : EnumArgument DeterminismLevel)
    → Succeeds (build_constraints given sensitivity determinism)
      ↔ AreConstraintsNamed given sensitivity determinism
unfolding build_constraints
build_constraints-Succeeds none sensitivity determinism =
    default_constraints-Succeeds sensitivity determinism
build_constraints-Succeeds (some given) sensitivity determinism = (λ h. tt, λ h. tt)

build_target-Succeeds :
    (x : EnumArgument TargetType) (id namespace : Option String)
    → Succeeds (build_target x id namespace) ↔ NamesMember target_type_value x
unfolding build_target
build_target-Succeeds x id namespace =
    Succeeds-ok (enum_argument target_type_value target_types "TargetDescriptor" x)
      (λ t. record { target_type = t; target_id = id; namespace = namespace }) _
      (enum_argument-Succeeds target_type_value target_types In-target_types "TargetDescriptor" x)

-- The steps of `build_intent_envelope`, in order.
steps-Succeeds :
    (d : EnvelopeDraws) (a : EnvelopeArguments)
    → Succeeds (build_intent_envelope d a) ↔ (
        NamesMember operation_class_value a.operation_class
        × (NamesMember target_type_value a.target_type
            × (AreFilled (("intent_name", a.intent_name) ∷ ("intent_domain", a.intent_domain) ∷ [])
                × (AreFilled (("summary", a.outcome_summary) ∷ [])
                    × (AreConstraintsNamed a.constraints a.data_sensitivity a.determinism_required
                        × Succeeds (validate_extension_keys (or_empty a.extensions)))))))
unfolding build_intent_envelope
steps-Succeeds d a =
    Succeeds-bind
      (enum_argument operation_class_value operation_classes "IntentEnvelope" a.operation_class) _ _
      _
      (enum_argument-Succeeds operation_class_value operation_classes In-operation_classes
        "IntentEnvelope" a.operation_class)
      (λ op.
        Succeeds-bind (build_target a.target_type a.target_id none) _ _ _
          (build_target-Succeeds a.target_type a.target_id none)
          (λ target.
            Succeeds-bind
              (require_filled "IntentEnvelope"
                (("intent_name", a.intent_name) ∷ ("intent_domain", a.intent_domain) ∷ []))
              _ _ _ (require_filled-Succeeds "IntentEnvelope" _)
              (λ u.
                Succeeds-bind
                  (require_filled "IntentEnvelope" (("summary", a.outcome_summary) ∷ [])) _ _ _
                  (require_filled-Succeeds "IntentEnvelope" _)
                  (λ v.
                    Succeeds-bind
                      (build_constraints a.constraints a.data_sensitivity a.determinism_required) _
                      _ _
                      (build_constraints-Succeeds a.constraints a.data_sensitivity
                        a.determinism_required)
                      (λ c.
                        Succeeds-ok (require_keys "IntentEnvelope" (or_empty a.extensions))
                          (envelope_of d a op target c) _
                          (require_keys-Succeeds "IntentEnvelope" (or_empty a.extensions)))))))

-- `build_intent_envelope` returns an envelope exactly if each enumeration is given by a member or by
-- a member's text, the intent's name and domain and the summary are not blank, and the extension
-- keys are valid. Where constraints are given, the texts for the data sensitivity and the
-- determinism are not looked at.
pub build_intent_envelope-IsBuildable :
    (d : EnvelopeDraws) (a : EnvelopeArguments)
    → Succeeds (build_intent_envelope d a) ↔ IsBuildable a
build_intent_envelope-IsBuildable d a = (
  λ h.
      let (operation, (target, (intent, (outcome, (constraints, keys))))) =
        (steps-Succeeds d a).0 h in
      record {
        operation = operation;
        target = target;
        intent = intent;
        outcome = outcome;
        constraints = constraints;
        keys = keys;
      },
  λ b.
      (steps-Succeeds d a).1
        (b.operation, (b.target, (b.intent, (b.outcome, (b.constraints, b.keys))))),
)
