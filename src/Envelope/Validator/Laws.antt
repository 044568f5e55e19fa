-- ===== src/Envelope/Validator/Laws.antt =====
-- The verdict of `validate_envelope`: it agrees with the errors, and with the protocol rules.
use semantic_intent_protocol.Base.{ℤ, ◌≡◌, refl, ◌↔◌, true, [], is_empty, string_eq}
use semantic_intent_protocol.Envelope.Enums.{binding_eq, operation_eq, determinism_eq}
use semantic_intent_protocol.Envelope.Models.{IntentEnvelope}
use semantic_intent_protocol.Envelope.Validator.{run_checks, validate_envelope, ValidationResult}
use semantic_intent_protocol.Envelope.Validator.Accepted.{IsAccepted}
use semantic_intent_protocol.Envelope.Validator.Checks.{
  check_requirements-Judges, check_write_execute-Judges, check_actions-Judges, check_budgets-Judges,
  check_bindings-Judges, check_declared_trust-Judges, check_version-Judges,
}
use semantic_intent_protocol.Envelope.Validator.Judges.{then-Judges, iff-Judges, Judges}
use semantic_intent_protocol.Envelope.Validator.Provenance.{check_optional_provenance-Judges}

run_checks-Judges : (now : ℤ) (e : IntentEnvelope) → Judges (IsAccepted now e) (run_checks now e)
unfolding run_checks
run_checks-Judges now e =
    iff-Judges
      (
        λ (((((((v, d), u), (t, c)), a), o), q), p). record {
          version = v;
          declared = d;
          time_budget = t;
          cost_budget = c;
          actions = a;
          operation = o;
          provenance = p;
        },
        λ w. (
          (
            (
              ((((w.version, w.declared), tt), (w.time_budget, w.cost_budget)), w.actions),
              w.operation,
            ),
            tt,
          ),
          w.provenance,
        ),
      )
      (then-Judges
        (then-Judges
          (then-Judges
            (then-Judges
              (then-Judges
                (then-Judges (then-Judges (check_version-Judges e) (check_declared_trust-Judges e))
                  (check_bindings-Judges e.protocol_bindings))
                (check_budgets-Judges e))
              (check_actions-Judges e))
            (check_write_execute-Judges e))
          (check_requirements-Judges e.capability_requirements))
        (check_optional_provenance-Judges now e))

-- An envelope is valid exactly when it satisfies the protocol rules at the time of the check.
pub validate_envelope-IsAccepted :
    (now : ℤ) (e : IntentEnvelope) → (validate_envelope now e).valid ≡ true ↔ IsAccepted now e
unfolding validate_envelope
validate_envelope-IsAccepted now e =
    let j = run_checks-Judges now e in
    let fresh : ValidationResult = record { valid = true; errors = []; warnings = [] } in
    (λ h. (j.sound fresh h).1, λ a. j.complete fresh refl a)

-- An envelope is valid exactly when no error was recorded.
pub valid-validate_envelope :
    (now : ℤ) (e : IntentEnvelope)
    → (validate_envelope now e).valid ≡ is_empty (validate_envelope now e).errors
unfolding validate_envelope
valid-validate_envelope now e =
    (run_checks-Judges now e).consistent (record { valid = true; errors = []; warnings = [] }) refl
