-- ===== src/Tests/Requests.antt =====
-- The theorems on one request: the envelope, the selection, the policy and the broker.
use semantic_intent_protocol.Base.{
  ◌≢◌, refl, [], string_eq, String, map, Option, ◌++◌, Dict, List, ok, ◌↔◌, ◌≡◌, none, Items,
  contains_text, insert_sorted, Value, sorted, text_leb, insert, lookup, ◌∷◌, some, true, false,
}
use semantic_intent_protocol.Broker.Handlers.{Draws, process_intent}
use semantic_intent_protocol.Broker.Handlers.Audit.{process_intent-AgreesWith, AgreesWith}
use semantic_intent_protocol.Broker.Handlers.Laws.{process_intent-IsAuthorised, IsAuthorised}
use semantic_intent_protocol.Broker.Handlers.Success.{process_intent_succeeds}
use semantic_intent_protocol.Broker.Service.{
  handle, BrokerService, handle_all, status_code, translate,
}
use semantic_intent_protocol.Broker.Service.Log.{handle_all-audit_log, record_of}
use semantic_intent_protocol.Broker.Service.Status.{process_intent-IsStatus, IsStatus}
use semantic_intent_protocol.Envelope.Enums.{OperationClass, TrustLevel, BindingType}
use semantic_intent_protocol.Envelope.Models.{IntentEnvelope}
use semantic_intent_protocol.Envelope.Validator.{validate_envelope}
use semantic_intent_protocol.Envelope.Validator.Accepted.{IsAccepted}
use semantic_intent_protocol.Envelope.Validator.Laws.{validate_envelope-IsAccepted}
use semantic_intent_protocol.Negotiation.Matcher.{query_of, match}
use semantic_intent_protocol.Negotiation.Matcher.Clarification.{match-IsUnclear, IsUnclear}
use semantic_intent_protocol.Negotiation.Planner.{
  binding_to_execution_type, CheckNote, fill_required, SelectionBasis, invoke_step, ExecutionType,
  plan, ExecutionPlan,
}
use semantic_intent_protocol.Negotiation.Results.{RationalePart, NegotiationResult}
use semantic_intent_protocol.Policy.Engine.{evaluate}
use semantic_intent_protocol.Policy.Engine.Permitted.{evaluate-IsPermitted, IsPermitted}
use semantic_intent_protocol.Registry.Models.{RiskLevel}
use semantic_intent_protocol.Registry.Service.{find_matches}
use semantic_intent_protocol.Registry.Storage.{put, list_all}
use semantic_intent_protocol.Tests.{draws, noon, request, library, same_text, get_article}

abbrev negotiated : NegotiationResult
negotiated = match same_text library request

validate_request : (validate_envelope noon request).valid ≡ true
unfolding validate_envelope lookup insert text_leb sorted insert_sorted
validate_request = refl

abbrev pub request_plan : ExecutionPlan
request_plan = record {
  plan_id = "plan-1";
  intent_id = "intent-1";
  selected_capability = get_article;
  selected_binding = BindingType.mcp;
  execution_type = ExecutionType.mcp_tool;
  deterministic_target = record {
    capability_id = "get_article";
    provider_id = "library";
    binding_type = "mcp";
    endpoint = "mcp://library";
  };
  grounded_parameters =
      ("topic", Value.str "cats") ∷ ("language", Value.str "<REQUIRED:language>") ∷ [];
  execution_steps =
      invoke_step get_article BindingType.mcp "get_article"
        (("topic", Value.str "cats") ∷ ("language", Value.str "<REQUIRED:language>") ∷ [])
      ∷ [];
  preconditions = [];
  guard_conditions = [];
  fallback_behavior = "fail_closed";
  expected_outputs = "the article" ∷ [];
  selection_basis = SelectionBasis.by_rank (
      RationalePart.exact_name_match
      ∷ RationalePart.domain_match
      ∷ RationalePart.operation_class_match
      ∷ RationalePart.preferred_binding BindingType.mcp
      ∷ RationalePart.score_part 17
      ∷ []);
  policy_checks_passed =
      record {
        check_name = "trust_level";
        result = "passed";
        notes = CheckNote.trust_meets_minimum TrustLevel.internal TrustLevel.internal;
      }
      ∷ record {
        check_name = "operation_class_match";
        result = "passed";
        notes = CheckNote.operation_matches OperationClass.retrieve OperationClass.retrieve;
      }
      ∷ [];
  approval_required = false;
  trace = record {
    trace_id = "trace-1";
    span_id = "span-1";
    parent_span_id = none;
    intent_id = "intent-1";
  };
  provenance_summary = some (
      ("originator", Value.str "alice")
      ∷ ("submitted_by", Value.str "bot")
      ∷ ("delegation_chain", Value.list (Items.item (Value.str "planner") Items.end_items))
      ∷ []);
  extensions = [];
}

pub request_planned :
    (process_intent same_text true library draws request).execution_plan ≡ some request_plan
unfolding process_intent validate_envelope match evaluate plan find_matches list_all fill_required
    lookup insert text_leb contains_text sorted insert_sorted binding_to_execution_type
request_planned = refl

process_intent-IsAuthorised_example : IsAuthorised same_text library draws request request_plan
process_intent-IsAuthorised_example =
    process_intent-IsAuthorised same_text true library draws request request_plan request_planned

process_intent-IsStatus_example :
    IsStatus same_text true library draws request
      (process_intent same_text true library draws request)
process_intent-IsStatus_example = process_intent-IsStatus same_text true library draws request

process_intent-AgreesWith_example :
    AgreesWith
      (process_intent same_text true library draws request).execution_plan
      (process_intent same_text true library draws request).audit_record
process_intent-AgreesWith_example = process_intent-AgreesWith same_text true library draws request

validate_envelope-IsAccepted_example :
    ((validate_envelope noon request).valid ≡ true) ↔ IsAccepted noon request
validate_envelope-IsAccepted_example = validate_envelope-IsAccepted noon request

negotiated_selects : negotiated.selected_capability ≡ some get_article
unfolding match find_matches list_all lookup insert text_leb contains_text sorted insert_sorted
negotiated_selects = refl

evaluate-IsPermitted_example :
    ((evaluate true request negotiated).policy_decision.allowed ≡ true)
    ↔ IsPermitted request get_article
evaluate-IsPermitted_example =
    evaluate-IsPermitted true request negotiated get_article negotiated_selects

negotiated_allowed : (evaluate true request negotiated).policy_decision.allowed ≡ true
unfolding evaluate match find_matches list_all lookup insert text_leb contains_text sorted
    insert_sorted
negotiated_allowed = refl

match-IsUnclear_example :
    (((match same_text library request).requires_clarification ≡ true)
      ↔ IsUnclear request.negotiation.allow_fallback
          (find_matches same_text library (query_of request)))
    × (((match same_text library request).requires_clarification ≡ true)
        ↔ ((match same_text library request).selected_capability ≡ none))
match-IsUnclear_example = match-IsUnclear same_text request library

abbrev decided : NegotiationResult
decided = evaluate true request negotiated

decided-plan : plan "plan-1" request decided ≡ ok request_plan
unfolding evaluate match plan find_matches list_all fill_required lookup insert text_leb
    contains_text sorted insert_sorted binding_to_execution_type
decided-plan = refl

decided_selects :
    (decided.selected_capability ≡ some get_article)
    × (decided.selected_binding ≡ some BindingType.mcp)
unfolding evaluate match find_matches list_all lookup insert text_leb contains_text sorted
    insert_sorted
decided_selects = (refl, refl)

some_binding : get_article.supported_bindings ≢ []
some_binding h = cc

process_intent_succeeds_example :
    (p : ExecutionPlan) × ((process_intent same_text true library draws request).execution_plan
      ≡ some p)
process_intent_succeeds_example =
    process_intent_succeeds same_text true library draws request get_article
      ((validate_envelope-IsAccepted noon request).0 validate_request) negotiated_selects
      ((evaluate-IsPermitted true request negotiated get_article negotiated_selects).0
        negotiated_allowed)
      some_binding

abbrev pub broker : BrokerService
broker = record { registry = library; enforce_approval = true; audit_log = [] }

abbrev requests : List (Draws × IntentEnvelope)
requests = (draws, request) ∷ (draws, record request { sip_version = "0.2" }) ∷ []

handle_all-audit_log_example :
    ((handle_all same_text requests broker).audit_log
      ≡ (broker.audit_log ++ map (record_of same_text broker) requests))
    × ((handle_all same_text requests broker).registry ≡ broker.registry)
    × ((handle_all same_text requests broker).enforce_approval ≡ broker.enforce_approval)
handle_all-audit_log_example = handle_all-audit_log same_text requests broker

abbrev adapters : Dict (ExecutionPlan → Option String)
adapters = ("rest", λ p. none) ∷ ("mcp", λ p. some p.plan_id) ∷ []

translated : (translate same_text adapters draws request broker).0 ≡ some "plan-1"
unfolding translate handle process_intent validate_envelope match evaluate plan find_matches
    list_all fill_required lookup insert text_leb contains_text sorted insert_sorted
    binding_to_execution_type
translated = refl

-- A wrong version is answered with 400, a missing scope with 403, and a capability that always asks
-- for approval with 202.
status_wrong_version :
    status_code
      (process_intent same_text true library draws (record request { sip_version = "0.2" }))
    ≡ 400
unfolding status_code process_intent validate_envelope match evaluate plan find_matches list_all
    fill_required lookup insert text_leb contains_text sorted insert_sorted
    binding_to_execution_type
status_wrong_version = refl

status_missing_scope :
    status_code (
      process_intent same_text true
        (put (record get_article { required_scopes = "write" ∷ [] }) library)
        draws
        request)
    ≡ 403
unfolding status_code process_intent validate_envelope match evaluate plan find_matches list_all
    fill_required lookup insert put text_leb contains_text sorted insert_sorted
    binding_to_execution_type
status_missing_scope = refl

status_risky :
    status_code (
      process_intent same_text true
        (put
          (record get_article {
            operation_class = OperationClass.write;
            risk_level = RiskLevel.high;
          })
          library)
        draws
        request)
    ≡ 202
unfolding status_code process_intent validate_envelope match evaluate plan find_matches list_all
    fill_required lookup insert put text_leb contains_text sorted insert_sorted
    binding_to_execution_type
status_risky = refl
