-- ===== src/Tests/Seeds.antt =====
-- The theorems on the seed data, and on the approval of a plan.
use semantic_intent_protocol.Base.{
  true, ◌⊎◌, ◌↔◌, some, insert_sorted, sorted, contains_text, text_leb, insert, lookup, ◌≡◌, none,
  refl, [], ◌∷◌,
}
use semantic_intent_protocol.Broker.Handlers.{process_intent}
use semantic_intent_protocol.Broker.Handlers.Approval.{IsSensitive, process_intent-approval}
use semantic_intent_protocol.Envelope.Enums.{BindingType}
use semantic_intent_protocol.Envelope.Models.{IntentEnvelope}
use semantic_intent_protocol.Envelope.Validator.{validate_envelope}
use semantic_intent_protocol.Negotiation.Matcher.{match}
use semantic_intent_protocol.Negotiation.Planner.{
  plan_for, binding_to_execution_type, fill_required, plan, ExecutionPlan,
}
use semantic_intent_protocol.Policy.Engine.{evaluate}
use semantic_intent_protocol.Registry.Bootstrap.{build_seeded_registry}
use semantic_intent_protocol.Registry.Bootstrap.Knowledge.{retrieve_document}
use semantic_intent_protocol.Registry.Bootstrap.Seeded.{process_intent-IsSeedPlan, IsSeedPlan}
use semantic_intent_protocol.Registry.Service.{find_matches}
use semantic_intent_protocol.Registry.Storage.{put, list_all}
use semantic_intent_protocol.Tests.{request, draws, same_text}

abbrev seed_request : IntentEnvelope
seed_request = record request {
  intent = record request.intent {
    intent_name = "retrieve_document";
    intent_domain = "knowledge_management";
  };
  actor = record request.actor { scopes = "sip:knowledge:read" ∷ [] };
  protocol_bindings = [];
  provenance = none;
}

abbrev seed_plan : ExecutionPlan
seed_plan =
    plan_for "plan-1" seed_request
      (evaluate true seed_request (match same_text build_seeded_registry seed_request))
      retrieve_document BindingType.rag

seed_planned :
    (process_intent same_text true build_seeded_registry draws seed_request).execution_plan
    ≡ some seed_plan
unfolding process_intent validate_envelope match evaluate plan find_matches list_all fill_required
    lookup insert text_leb contains_text sorted insert_sorted binding_to_execution_type
    build_seeded_registry put plan_for
seed_planned = refl

process_intent-IsSeedPlan_example : IsSeedPlan seed_request seed_plan
process_intent-IsSeedPlan_example =
    process_intent-IsSeedPlan same_text true draws seed_request seed_plan seed_planned

process_intent-approval_example : (seed_plan.approval_required ≡ true) ↔ (
    ((true ≡ true)
      × IsSensitive seed_plan.selected_capability.risk_level
          seed_plan.selected_capability.operation_class)
    ⊎ (seed_plan.selected_capability.constraints.requires_human_approval ≡ true))
process_intent-approval_example =
    process_intent-approval same_text true build_seeded_registry draws seed_request seed_plan
      seed_planned
