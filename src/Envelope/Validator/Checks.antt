-- ===== src/Envelope/Validator/Checks.antt =====
-- What each check of `validate_envelope` outside the provenance block decides.
use semantic_intent_protocol.Base.{
  if◌then◌else◌, ◌==◌, is_below_zero, Float, ltb, negsuc, pos, is_negative, none, some,
  le→ltb-false, ltb-false→le, ℤ, ◌≤◌, Option, eq_iff, ◌≡◌, refl, Bool, true, false, not, List, [],
  ◌∷◌, contains, string_eq, arith,
}
use semantic_intent_protocol.Envelope.Enums.{
  DeterminismLevel, TrustLevel, OperationClass, trust_order, binding_types, BindingType, binding_eq,
  operation_eq, determinism_eq,
}
use semantic_intent_protocol.Envelope.Models.{
  CapabilityRequirement, IntentEnvelope, ProtocolBinding,
}
use semantic_intent_protocol.Envelope.Validator.{
  write_execute_classes, ValidationWarning, add_warning, check_write_execute, check_actions,
  check_budgets, check_declared_trust, check_requirements, check_version, ValidationError,
  ValidationResult, reject_if, check_bindings,
}
use semantic_intent_protocol.Envelope.Validator.Accepted.{
  MayOperate, IsOptionalNotBelowZero, IsOptionalNonNegative, AreDisjoint,
}
use semantic_intent_protocol.Envelope.Validator.Judges.{
  iff-Judges, common-empty, reject_if-Judges, then-Judges, unchanged-Judges, Judges,
}

pub check_version-Judges : (e : IntentEnvelope) → Judges (e.sip_version ≡ "0.1") (check_version e)
unfolding check_version
check_version-Judges e =
    reject_if-Judges _ _ (λ h. ground (arith, eq_iff e.sip_version "0.1"))
      (λ h. ground (arith, eq_iff e.sip_version "0.1"))

pub check_declared_trust-Judges :
    (e : IntentEnvelope)
    → Judges
        (trust_order e.trust.declared_trust_level ≤ trust_order e.actor.trust_level)
        (check_declared_trust e)
unfolding check_declared_trust
check_declared_trust-Judges e =
    reject_if-Judges _ _ (λ h. ltb-false→le _ _ h) (λ h. le→ltb-false _ _ h)

-- A binding of the model is a binding type, so this check never fails.
pub check_bindings-Judges : (bs : List ProtocolBinding) → Judges Unit (check_bindings bs)
unfolding check_bindings
check_bindings-Judges [] = unchanged-Judges
check_bindings-Judges (b ∷ bs) =
    iff-Judges ((λ x. tt), λ x. (tt, tt))
      (then-Judges (reject_if-Judges {P = Unit} _ _ (λ h. tt) (λ h. known b.binding_type))
        (check_bindings-Judges bs))
  where
    known : (t : BindingType) → not (contains binding_types t) ≡ false
    known t = ground arith

pub check_requirements-Judges :
    (qs : List CapabilityRequirement) → Judges Unit (check_requirements qs)
unfolding check_requirements
check_requirements-Judges [] = unchanged-Judges
check_requirements-Judges (q ∷ qs) =
    iff-Judges ((λ x. tt), λ x. (tt, tt))
      (then-Judges (one q.preferred_binding) (check_requirements-Judges qs))
  where
    known : (t : BindingType) → not (contains binding_types t) ≡ false
    known t = ground arith

    one :
        (o : Option BindingType)
        → Judges (Unit {0}) (λ r. elim o [
          | none ↦ r
          | some b ↦
              reject_if
                (not (contains binding_types b))
                (ValidationError.invalid_preferred_binding b)
                r
        ])
    one none = unchanged-Judges
    one (some b) = reject_if-Judges _ _ (λ h. tt) (λ h. known b)

pub check_budgets-Judges :
    (e : IntentEnvelope)
    → Judges
        (IsOptionalNonNegative e.constraints.time_budget_ms
          × IsOptionalNotBelowZero e.constraints.cost_budget)
        (check_budgets e)
unfolding check_budgets
check_budgets-Judges e =
    then-Judges
      (reject_if-Judges _ _ (time_sound e.constraints.time_budget_ms)
        (time_complete e.constraints.time_budget_ms))
      (reject_if-Judges _ _ (cost_sound e.constraints.cost_budget)
        (cost_complete e.constraints.cost_budget))
  where
    time_sound :
        (t : Option ℤ)
        → elim t [ none ↦ false | some t ↦ is_negative t ] ≡ false
        → IsOptionalNonNegative t
    time_sound none h = tt
    time_sound (some (pos n)) h = tt
    time_sound (some (negsuc n)) h = cc

    time_complete :
        (t : Option ℤ)
        → IsOptionalNonNegative t
        → elim t [ none ↦ false | some t ↦ is_negative t ] ≡ false
    time_complete none h = refl
    time_complete (some (pos n)) h = refl
    time_complete (some (negsuc n)) h = absurd h

    cost_sound :
        (c : Option Float)
        → elim c [ none ↦ false | some c ↦ is_below_zero c ] ≡ false
        → IsOptionalNotBelowZero c
    cost_sound none h = tt
    cost_sound (some c) h = h

    cost_complete :
        (c : Option Float)
        → IsOptionalNotBelowZero c
        → elim c [ none ↦ false | some c ↦ is_below_zero c ] ≡ false
    cost_complete none h = refl
    cost_complete (some c) h = h

pub check_actions-Judges :
    (e : IntentEnvelope)
    → Judges
        (AreDisjoint e.constraints.allowed_actions e.constraints.forbidden_actions)
        (check_actions e)
unfolding check_actions
check_actions-Judges e =
    let (apart, shared) =
      common-empty e.constraints.allowed_actions e.constraints.forbidden_actions in
    reject_if-Judges _ _ (λ h. apart (ground arith)) (λ p. rw (shared p))

-- A warning changes neither the verdict nor the errors.
pub warned-Judges :
    {P : Type 0} {f : ValidationResult → ValidationResult} (b : Bool) (w : ValidationWarning)
    → Judges P f
    → Judges P (λ r. if b then add_warning w (f r) else f r)
unfolding add_warning
warned-Judges true w j = record {
  consistent = j.consistent;
  sound = j.sound;
  complete = j.complete;
}
warned-Judges false w j = j

pub check_write_execute-Judges :
    (e : IntentEnvelope)
    → Judges (MayOperate e.intent.operation_class e.actor.trust_level) (check_write_execute e)
unfolding check_write_execute
check_write_execute-Judges e = by_class e.intent.operation_class
  where
    enough :
        (b : Bool) (c : OperationClass)
        → Judges (trust_order TrustLevel.internal ≤ trust_order e.actor.trust_level) (λ r.
          let r' =
            reject_if
              (ltb (trust_order e.actor.trust_level) 1)
              (ValidationError.insufficient_trust c e.actor.trust_level)
              r in
          if b then add_warning ValidationWarning.advisory_determinism r' else r')
    enough b c = warned-Judges b _ (reject_if-Judges _ _ (ltb-false→le _ _) (le→ltb-false _ _))

    by_class :
        (c : OperationClass)
        → Judges (MayOperate c e.actor.trust_level) (λ r.
          if contains write_execute_classes c
          then (let r' =
                reject_if
                  (ltb (trust_order e.actor.trust_level) 1)
                  (ValidationError.insufficient_trust c e.actor.trust_level)
                  r in
              if e.constraints.determinism_required == DeterminismLevel.advisory
              then add_warning ValidationWarning.advisory_determinism r'
              else r')
          else r)
    by_class OperationClass.write = enough _ OperationClass.write
    by_class OperationClass.execute = enough _ OperationClass.execute
    by_class OperationClass.read = unchanged-Judges
    by_class OperationClass.analyze = unchanged-Judges
    by_class OperationClass.retrieve = unchanged-Judges
    by_class OperationClass.delegate = unchanged-Judges
