-- ===== src/Core/Planner.antt =====
-- `DeterministicPlanner` (sip/core/deterministic_planner.py). The identifiers that the source draws
-- for the plan and its span are arguments. `err` is a raised `FailClosedError`.
pub mod Choice
pub mod Order
pub mod Refused
use semantic_intent_protocol.Base.{
  dict_of, some, [], length, none, ◌<>◌, is_empty, string_eq, text_leb, ◌||◌, contains, is_blank,
  lookup, ok, sorted, ◌==◌, if◌then◌else◌, keep_if, not, Bool, Dict, Result, Value, map, ℕ, Fields,
  List, Option, String, ◌∷◌, false, ◌>>=◌, ◌>>◌,
}
use semantic_intent_protocol.Core.FailClosed.{
  include_an_allowed_candidate, no_metadata, from_reason, StructuredDenial,
  check_allowed_capabilities_present, check_policy_allowed,
}
use semantic_intent_protocol.Core.Intent.{NormalizedActor, NormalizedIntent}
use semantic_intent_protocol.Envelope.Enums.{binding_type_value, BindingType}
use semantic_intent_protocol.Negotiation.Matcher.{first}
use semantic_intent_protocol.Negotiation.Planner.{
  CheckNote, SelectionBasis, expected_outputs_of, texts, optional_text, invoke_step, target_at,
  ExecutionPlan, fill_required, binding_to_execution_type,
}
use semantic_intent_protocol.Policy.Interface.{
  PolicyReason, reason_code_value, ReasonCode, PolicyResult,
}
use semantic_intent_protocol.Registry.Models.{CapabilityDescriptor}

-- The first binding whose value is the preferred one.
pub binding_of_value : String → List BindingType → Option BindingType
binding_of_value preferred [] = none
binding_of_value preferred (b ∷ bs) =
    let rest = binding_of_value preferred bs in
    if binding_type_value b == preferred then some b else rest

-- The preferred binding, if there is a preference and it is among the bindings, or else the first.
pub preferred_or_first : List BindingType → Option String → Option BindingType
unfolding binding_of_value
preferred_or_first bs none = first bs
preferred_or_first bs (some preferred) =
    if is_blank preferred
    then first bs
    else elim (binding_of_value preferred bs) [ none ↦ first bs | some b ↦ some b ]

-- `_select_best_binding`
abbrev pub select_best_binding : NormalizedIntent → CapabilityDescriptor → Option BindingType
unfolding preferred_or_first
select_best_binding i c = preferred_or_first c.supported_bindings i.preferred_execution_mode

-- `metadata.get("parameters", {})`, or nothing if that is no dict.
abbrev raw_parameters : Option Value → Dict Value
raw_parameters (some (Value.dict fs)) = dict_of fs
raw_parameters _ = []

-- `_ground_parameters`
ground_normalized : NormalizedIntent → CapabilityDescriptor → Dict Value
ground_normalized i c =
    fill_required c.input_schema.required_fields (raw_parameters (lookup "parameters" i.metadata))

-- The candidates that the policy allows, by their ids, or else what it allows.
pub eligible_of : PolicyResult → List CapabilityDescriptor → List CapabilityDescriptor
eligible_of r cs =
    let allowed_ids = map (λ c. c.capability_id) r.allowed_capabilities in
    let kept = keep_if (λ c. contains allowed_ids c.capability_id) cs in
    if is_empty kept then r.allowed_capabilities else kept

-- The order of the sort key `(provider_id, capability_id)`.
pub key_leb : CapabilityDescriptor → CapabilityDescriptor → Bool
key_leb a b =
    if a.provider.provider_id == b.provider.provider_id
    then text_leb a.capability_id b.capability_id
    else text_leb a.provider.provider_id b.provider.provider_id

abbrev pub no_eligible : Result StructuredDenial CapabilityDescriptor
no_eligible =
    from_reason ReasonCode.no_allowed_capabilities PolicyReason.none_eligible
      (include_an_allowed_candidate ∷ []) no_metadata

abbrev pub first_eligible : List CapabilityDescriptor → Result StructuredDenial CapabilityDescriptor
first_eligible [] = no_eligible
first_eligible (c ∷ cs) = ok c

-- The sort, and its first element.
pub select_eligible : List CapabilityDescriptor → Result StructuredDenial CapabilityDescriptor
unfolding key_leb
select_eligible eligible = first_eligible (sorted key_leb eligible)

pub require_binding :
    CapabilityDescriptor → Option BindingType → Result StructuredDenial BindingType
require_binding c (some b) = ok b
require_binding c none =
    from_reason ReasonCode.no_allowed_capabilities
      (PolicyReason.no_supported_binding c.capability_id) [] no_metadata

-- The summary of the provenance, if the intent has any.
summary_of_actor : NormalizedActor → Option (Dict Value)
summary_of_actor a =
    let named : Bool = elim a.originator [ none ↦ false | some o ↦ not (is_blank o) ] in
    if named || not (is_empty a.delegation_chain)
    then some (
        ("originator", optional_text a.originator)
        ∷ ("delegation_chain", Value.list (texts a.delegation_chain))
        ∷ [])
    else none

pub plan_selected :
    String
    → String
    → NormalizedIntent
    → PolicyResult
    → ℕ
    → CapabilityDescriptor
    → BindingType
    → ExecutionPlan
unfolding binding_to_execution_type ground_normalized summary_of_actor
plan_selected plan_id span_id i r eligible c b = record {
  plan_id = plan_id;
  intent_id = i.intent_id;
  selected_capability = c;
  selected_binding = b;
  execution_type = binding_to_execution_type b;
  deterministic_target = target_at c b none;
  grounded_parameters = ground_normalized i c;
  execution_steps = invoke_step c b i.intent_id (ground_normalized i c) ∷ [];
  preconditions = r.conditions;
  guard_conditions = ("Policy allowed: " <> reason_code_value r.reason_code) ∷ [];
  fallback_behavior = "fail_closed";
  expected_outputs = expected_outputs_of c;
  selection_basis = SelectionBasis.by_stable_sort c.capability_id c.provider.provider_id eligible;
  policy_checks_passed =
      record {
        check_name = "policy_allowed";
        result = "passed";
        notes = CheckNote.policy_reason r.reason;
      }
      ∷ record {
        check_name = "capability_selected";
        result = "passed";
        notes = CheckNote.selected_from c.capability_id eligible;
      }
      ∷ [];
  approval_required = not (is_empty r.required_approvals);
  trace = record {
    trace_id = i.correlation_id;
    span_id = span_id;
    parent_span_id = none;
    intent_id = i.intent_id;
  };
  provenance_summary = summary_of_actor i.actor;
  extensions = [];
}

-- `DeterministicPlanner.plan`
unfoldable pub plan_normalized :
    String
    → String
    → NormalizedIntent
    → PolicyResult
    → List CapabilityDescriptor
    → Result StructuredDenial ExecutionPlan
unfolding preferred_or_first check_policy_allowed check_allowed_capabilities_present eligible_of
    select_eligible require_binding plan_selected
plan_normalized plan_id span_id i r cs = do
  check_policy_allowed r
  check_allowed_capabilities_present r
  let eligible = eligible_of r cs
  c ← select_eligible eligible
  b ← require_binding c (select_best_binding i c)
  ok (plan_selected plan_id span_id i r (length eligible) c b)
