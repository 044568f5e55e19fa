-- ===== src/Tests/Builders.antt =====
-- The theorems on the SDK's builders and helpers, and on the response body.
use semantic_intent_protocol.Base.{
  [], none, pos, ok, is_empty, ◌≡◌, In, ◌↔◌, String, ◌∷◌, true, refl,
}
use semantic_intent_protocol.Broker.Handlers.{process_intent}
use semantic_intent_protocol.Broker.Submission.Coherence.{response_body-IsCoherent, IsCoherent}
use semantic_intent_protocol.Envelope.Enums.{
  OperationClass, TargetType, DataSensitivity, DeterminismLevel,
}
use semantic_intent_protocol.Envelope.Models.{IntentEnvelope}
use semantic_intent_protocol.Envelope.Validator.{unique}
use semantic_intent_protocol.Envelope.Validator.Accepted.{IsAccepted}
use semantic_intent_protocol.Extensions.{validate_extension_keys}
use semantic_intent_protocol.Policy.Engine.{scopes_to_check}
use semantic_intent_protocol.Policy.Rules.{check_scopes}
use semantic_intent_protocol.Sdk.Arguments.{
  require_keys, require_filled, enum_argument, EnumArgument,
}
use semantic_intent_protocol.Sdk.Arguments.Laws.{Succeeds}
use semantic_intent_protocol.Sdk.Builders.{
  constraints_of, build_target, envelope_of, EnvelopeArguments, EnvelopeDraws,
  build_intent_envelope,
}
use semantic_intent_protocol.Sdk.Builders.Accepted.{build_intent_envelope-IsAccepted, IsAdmissible}
use semantic_intent_protocol.Sdk.Builders.Buildable.{build_intent_envelope-IsBuildable, IsBuildable}
use semantic_intent_protocol.Sdk.Helpers.{compute_effective_scope_set}
use semantic_intent_protocol.Sdk.Helpers.Scopes.{compute_effective_scope_set-scopes_to_check}
use semantic_intent_protocol.Tests.{draws, library, request, noon, same_text}

abbrev arguments : EnvelopeArguments
arguments = record {
  actor = request.actor;
  intent_name = "get_article";
  intent_domain = "knowledge";
  operation_class = EnumArgument.text "retrieve";
  outcome_summary = "an article";
  target_type = EnumArgument.member TargetType.capability;
  target_id = none;
  intent_parameters = none;
  natural_language_hint = none;
  constraints = none;
  context = none;
  protocol_bindings = none;
  provenance = none;
  output_format = none;
  success_criteria = none;
  data_sensitivity = EnumArgument.text "internal";
  determinism_required = EnumArgument.member DeterminismLevel.strict;
  extensions = none;
}

abbrev envelope_draws : EnvelopeDraws
envelope_draws = record {
  intent_id = "intent-2";
  trace_id = "trace-2";
  span_id = "span-2";
  timestamp = record { local = pos 950; offset = none };
}

abbrev built_envelope : IntentEnvelope
built_envelope =
    envelope_of envelope_draws arguments OperationClass.retrieve
      (record { target_type = TargetType.capability; target_id = none; namespace = none })
      (constraints_of DataSensitivity.internal DeterminismLevel.strict) []

envelope_built : build_intent_envelope envelope_draws arguments ≡ ok built_envelope
unfolding build_intent_envelope build_target enum_argument require_filled require_keys
    validate_extension_keys
envelope_built = refl

build_intent_envelope-IsAccepted_example :
    IsAccepted noon built_envelope ↔ IsAdmissible noon arguments built_envelope
build_intent_envelope-IsAccepted_example =
    build_intent_envelope-IsAccepted noon envelope_draws arguments built_envelope envelope_built

build_intent_envelope-IsBuildable_example :
    Succeeds (build_intent_envelope envelope_draws arguments) ↔ IsBuildable arguments
build_intent_envelope-IsBuildable_example =
    build_intent_envelope-IsBuildable envelope_draws arguments

compute_effective_scope_set-scopes_to_check_example :
    ((a : String) → In a (compute_effective_scope_set request) ↔ In a (scopes_to_check request))
    × (is_empty (check_scopes ("read" ∷ []) (compute_effective_scope_set request))
        ≡ is_empty (check_scopes ("read" ∷ []) (scopes_to_check request)))
compute_effective_scope_set-scopes_to_check_example =
    compute_effective_scope_set-scopes_to_check request ("read" ∷ [])

-- The delegation grants one of the actor's two scopes.
granted : compute_effective_scope_set request ≡ ("read" ∷ [])
unfolding compute_effective_scope_set unique
granted = refl

response_body-IsCoherent_example : IsCoherent (process_intent same_text true library draws request)
response_body-IsCoherent_example = response_body-IsCoherent same_text true library draws request
