-- ===== src/Tests/Edges.antt =====
-- The theorems on what surrounds the broker: the identity headers, the adapters
-- and the extension keys.
use semantic_intent_protocol.Base.{
  refl, In, ◌↔◌, ok, [], split_on, ◌≡◌, lookup, ◌∷◌, none, some, true, false, String, Dict, Value,
}
use semantic_intent_protocol.Broker.Identity.{is_trusted_identity_enabled, map_identity_headers}
use semantic_intent_protocol.Broker.Service.{translate, handle}
use semantic_intent_protocol.Broker.Submission.{submit_intent}
use semantic_intent_protocol.Broker.Submission.Headers.{submit_intent_untrusted}
use semantic_intent_protocol.Extensions.{matches_pattern, validate_extension_keys}
use semantic_intent_protocol.Extensions.Form.{HasKeyForm}
use semantic_intent_protocol.Extensions.Keys.{validate_extension_keys-HasKeyForm}
use semantic_intent_protocol.Tests.{draws, request, same_text}
use semantic_intent_protocol.Tests.Requests.{request_planned, request_plan, broker}
use semantic_intent_protocol.Tests.Wire.{envelopes, wire}
use semantic_intent_protocol.Translator.Adapters.{default_adapters}
use semantic_intent_protocol.Translator.Complete.{translate-default_adapters, IsTranslationOf}
use semantic_intent_protocol.Translator.Results.{TranslationResult}

abbrev as_text : Value → String
as_text v = "value"

broker_planned : (handle same_text draws request broker).0.execution_plan ≡ some request_plan
unfolding handle
broker_planned = request_planned

translate-default_adapters_example :
    (x : TranslationResult) × ((translate same_text
        (default_adapters same_text as_text)
        draws
        request
        broker).0
      ≡ some x)
    × IsTranslationOf request_plan x
translate-default_adapters_example =
    translate-default_adapters same_text as_text same_text draws request broker request_plan
      broker_planned

-- The headers ask for more trust and for other scopes.
abbrev rise : Dict String
rise = ("x-trust-level", "admin") ∷ ("x-scopes", "write,read") ∷ []

untrusted_setting : is_trusted_identity_enabled same_text none ≡ false
unfolding is_trusted_identity_enabled
untrusted_setting = refl

submit_intent_untrusted_example :
    submit_intent wire envelopes same_text same_text none rise draws "intent-1" broker
    ≡ submit_intent wire envelopes same_text same_text none [] draws "intent-1" broker
submit_intent_untrusted_example =
    submit_intent_untrusted wire envelopes same_text same_text none rise [] draws "intent-1" broker
      untrusted_setting

-- The headers are taken where they are trusted.
risen : (map_identity_headers same_text true rise request.actor).scopes ≡ ("write" ∷ "read" ∷ [])
unfolding map_identity_headers lookup split_on
risen = refl

abbrev vendor_fields : Dict Value
vendor_fields = ("x_note", Value.null) ∷ ("Acme.priority", Value.null) ∷ []

validate_extension_keys-HasKeyForm_example :
    (validate_extension_keys vendor_fields ≡ ok vendor_fields)
    ↔ ((k : String) (v : Value) → In (k, v) vendor_fields → HasKeyForm k)
validate_extension_keys-HasKeyForm_example = validate_extension_keys-HasKeyForm vendor_fields

vendor_fields_valid : validate_extension_keys vendor_fields ≡ ok vendor_fields
unfolding validate_extension_keys
vendor_fields_valid = refl

-- A name without a dot and without the prefix is refused.
plain_key : matches_pattern "priority" ≡ false
unfolding matches_pattern
plain_key = refl

-- A newline at the end is overlooked.
newline_key : matches_pattern "x_note\n" ≡ true
unfolding matches_pattern
newline_key = refl
