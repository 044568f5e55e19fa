-- ===== src/Envelope/Validator.antt =====
-- `validate_envelope` (sip/envelope/validator.py). Each check of the source's body is a function
-- that takes the result so far and returns it with its errors and warnings added. A message is a
-- value with what the source writes into its text; the clock is an argument.
pub mod Accepted
pub mod Judges
mod Checks
mod Provenance
pub mod Laws
use semantic_intent_protocol.Base.{
  ℕ, String, Bool, true, false, not, ◌&&◌, Option, none, some, List, [], ◌∷◌, ◌++◌, ◌==◌, string_eq,
  contains, keep_if, is_empty, length, ltb, sorted, text_leb, ℤ, leb_ℤ, is_negative, is_below_zero,
  if◌then◌else◌,
}
use semantic_intent_protocol.Envelope.Enums.{
  OperationClass, DeterminismLevel, TrustLevel, BindingType, trust_order, binding_types, binding_eq,
  operation_eq, determinism_eq,
}
use semantic_intent_protocol.Envelope.Models.{
  IntentEnvelope, ProvenanceBlock, ProtocolBinding, CapabilityRequirement, utc_instant,
}

pub data ValidationError : Type 0 where
  unsupported_sip_version : String → ValidationError
  trust_escalation : ValidationError
  invalid_binding_type : BindingType → ValidationError
  negative_time_budget : ValidationError
  negative_cost_budget : ValidationError
  conflicting_actions : List String → ValidationError
  insufficient_trust : OperationClass → TrustLevel → ValidationError
  invalid_preferred_binding : BindingType → ValidationError
  delegation_chain_too_long : ℕ → ValidationError
  delegation_expired : ValidationError
  submitter_mismatch : String → String → ValidationError
  excess_authority : List String → ValidationError

pub data ValidationWarning : Type 0 where
  advisory_determinism : ValidationWarning

pub record ValidationResult : Type 0 where
  pub valid : Bool
  pub errors : List ValidationError
  pub warnings : List ValidationWarning

pub add_error : ValidationError → ValidationResult → ValidationResult
add_error message r = record r { valid = false; errors = r.errors ++ (message ∷ []) }

pub add_warning : ValidationWarning → ValidationResult → ValidationResult
add_warning message r = record r { warnings = r.warnings ++ (message ∷ []) }

-- `if fails: result.add_error(message)`
pub reject_if : Bool → ValidationError → ValidationResult → ValidationResult
unfolding add_error
reject_if fails message r = if fails then add_error message r else r

abbrev pub valid_sip_versions : List String
valid_sip_versions = "0.1" ∷ []

abbrev pub write_execute_classes : List OperationClass
write_execute_classes = OperationClass.write ∷ OperationClass.execute ∷ []

abbrev pub high_risk_trust_minimum : TrustLevel
high_risk_trust_minimum = TrustLevel.internal

abbrev pub max_delegation_chain_depth : ℕ
max_delegation_chain_depth = 5

-- A set of texts, listed once each in Python's order: `sorted(set(xs))`.
unfoldable pub unique : List String → List String
unique [] = []
unique (x ∷ xs) = let rest = unique xs in if contains xs x then rest else x ∷ rest

unfoldable pub sorted_set : List String → List String
unfolding unique
sorted_set xs = sorted text_leb (unique xs)

-- `allowed & forbidden`
abbrev pub common : List String → List String → List String
common xs ys = keep_if (contains ys) xs

-- `set(xs) - set(ys)`
abbrev pub excess : List String → List String → List String
excess xs ys = keep_if (λ x. not (contains ys x)) xs

pub check_version : IntentEnvelope → ValidationResult → ValidationResult
unfolding reject_if
check_version e =
    reject_if (not (contains valid_sip_versions e.sip_version))
      (unsupported_sip_version e.sip_version)

pub check_declared_trust : IntentEnvelope → ValidationResult → ValidationResult
unfolding reject_if
check_declared_trust e =
    reject_if (ltb (trust_order e.actor.trust_level) (trust_order e.trust.declared_trust_level))
      trust_escalation

pub check_bindings : List ProtocolBinding → ValidationResult → ValidationResult
unfolding reject_if
check_bindings [] r = r
check_bindings (b ∷ bs) r = check_bindings bs (
    reject_if (not (contains binding_types b.binding_type)) (invalid_binding_type b.binding_type) r)

pub check_budgets : IntentEnvelope → ValidationResult → ValidationResult
unfolding reject_if
check_budgets e r =
    reject_if (elim e.constraints.cost_budget [ none ↦ false | some c ↦ is_below_zero c ])
      negative_cost_budget
      (reject_if (elim e.constraints.time_budget_ms [ none ↦ false | some t ↦ is_negative t ])
        negative_time_budget r)

pub check_actions : IntentEnvelope → ValidationResult → ValidationResult
unfolding reject_if sorted_set
check_actions e =
    let conflicts = common e.constraints.allowed_actions e.constraints.forbidden_actions in
    reject_if (not (is_empty conflicts)) (conflicting_actions (sorted_set conflicts))

pub check_write_execute : IntentEnvelope → ValidationResult → ValidationResult
unfolding reject_if add_warning
check_write_execute e r =
    if contains write_execute_classes e.intent.operation_class
    then (let r' =
          reject_if (ltb (trust_order e.actor.trust_level) (trust_order high_risk_trust_minimum))
            (insufficient_trust e.intent.operation_class e.actor.trust_level) r in
        if e.constraints.determinism_required == DeterminismLevel.advisory
        then add_warning advisory_determinism r'
        else r')
    else r

pub check_requirements : List CapabilityRequirement → ValidationResult → ValidationResult
unfolding reject_if
check_requirements [] r = r
check_requirements (q ∷ qs) r = check_requirements qs (elim q.preferred_binding [
  | none ↦ r
  | some b ↦ reject_if (not (contains binding_types b)) (invalid_preferred_binding b) r
])

-- The delegation has expired: `expiry <= now`.
abbrev pub has_expired : ℤ → ProvenanceBlock → Bool
has_expired now p = elim p.delegation_expiry [ none ↦ false | some x ↦ leb_ℤ (utc_instant x) now ]

pub check_provenance : ℤ → IntentEnvelope → ProvenanceBlock → ValidationResult → ValidationResult
unfolding reject_if sorted_set
check_provenance now e p r =
    let depth = length p.delegation_chain in
    let r1 = reject_if (ltb max_delegation_chain_depth depth) (delegation_chain_too_long depth) r in
    let r2 = reject_if (has_expired now p) delegation_expired r1 in
    let r3 : ValidationResult = elim p.submitted_by [
      | none ↦ r2
      | some s ↦ reject_if (not (s == e.actor.actor_id)) (submitter_mismatch s e.actor.actor_id) r2
    ] in
    elim p.authority_scope [
      | none ↦ r3
      | some scopes ↦
          let beyond = excess scopes e.actor.scopes in
          reject_if (not (is_empty beyond)) (excess_authority (sorted_set beyond)) r3
    ]

pub check_optional_provenance : ℤ → IntentEnvelope → ValidationResult → ValidationResult
unfolding check_provenance
check_optional_provenance now e r = elim e.provenance [
  | none ↦ r
  | some p ↦ check_provenance now e p r
]

-- The body of `validate_envelope`, from a result that has no error yet.
run_checks : ℤ → IntentEnvelope → ValidationResult → ValidationResult
unfolding check_version check_declared_trust check_bindings check_budgets check_actions
    check_write_execute check_requirements check_optional_provenance
run_checks now e r = check_optional_provenance now e (
    check_requirements e.capability_requirements (
      check_write_execute e (
        check_actions e (
          check_budgets e
            (check_bindings e.protocol_bindings (check_declared_trust e (check_version e r)))))))

unfoldable pub validate_envelope : ℤ → IntentEnvelope → ValidationResult
unfolding run_checks
validate_envelope now e = run_checks now e (record { valid = true; errors = []; warnings = [] })
