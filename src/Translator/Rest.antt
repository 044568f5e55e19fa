-- ===== src/Translator/Rest.antt =====
-- `RestAdapter` (sip/translator/rest_adapter.py).
use Prim.Native.Char.{code}
use text.Mathlib.Text.{starts_with}
use semantic_intent_protocol.Base.{
  ◌∷◌, [], ◌<>◌, ◌++◌, ◌&&◌, is_blank, nat_eqb, not, string_eq, contains, if◌then◌else◌, Bool,
  String, Option,
}
use semantic_intent_protocol.Envelope.Enums.{operation_class_value, BindingType, OperationClass}
use semantic_intent_protocol.Negotiation.Planner.{ExecutionPlan}
use semantic_intent_protocol.Translator.Results.{
  origin_of, Payload, RestPayload, TranslationResult, for_binding, plain_items,
}

-- `_OPERATION_TO_HTTP_METHOD`
abbrev pub http_method : OperationClass → String
http_method OperationClass.read = "GET"
http_method OperationClass.retrieve = "GET"
http_method OperationClass.analyze = "GET"
http_method OperationClass.write = "POST"
http_method OperationClass.execute = "POST"
http_method OperationClass.delegate = "POST"

-- `text.replace("_", "-")`: the code of an underscore is 95.
unfoldable pub dashed : String → String
dashed String.[] = String.[]
dashed (String.◌∷◌ c s) =
    let rest = dashed s in if nat_eqb (code c) 95 then ("-" <> rest) else String.◌∷◌ c rest

-- `_build_path`
build_path : String → String → String
unfolding dashed
build_path id endpoint =
    if not (is_blank endpoint) && not (starts_with endpoint "<ENDPOINT")
    then endpoint
    else "/api/v1/" <> dashed id

abbrev pub sends_body : String → Bool
sends_body method = contains {A = String} ("POST" ∷ "PUT" ∷ "PATCH" ∷ []) method

unfoldable pub rest_request : ExecutionPlan → RestPayload
unfolding build_path plain_items
rest_request p =
    let method = http_method p.selected_capability.operation_class in
    record {
      method = method;
      path = build_path p.selected_capability.capability_id p.deterministic_target.endpoint;
      headers =
          ("Content-Type", "application/json")
          ∷ ("Accept", "application/json")
          ∷ ("X-SIP-Trace-Id", p.trace.trace_id)
          ∷ ("X-SIP-Span-Id", p.trace.span_id)
          ∷ ("X-SIP-Intent-Id", p.intent_id)
          ∷ [];
      body = if sends_body method then p.grounded_parameters else [];
      query_params = if sends_body method then [] else plain_items p.grounded_parameters;
    }

unfoldable pub rest_translate : ExecutionPlan → Option TranslationResult
unfolding for_binding rest_request
rest_translate p = for_binding BindingType.rest p (Payload.rest_payload (rest_request p)) (
    origin_of p
    ++ (("operation_class", operation_class_value p.selected_capability.operation_class) ∷ []))
