-- ===== src/Sdk/DiscoveryClient.antt =====
-- `CapabilityDiscoveryClient` of sip/sdk/clients.py.
pub mod Registered
pub mod Answered
pub mod Raised
use semantic_intent_protocol.Base.{
  ◌>>=◌, ◌<>◌, Fields, Items, ℕ, String, Option, Value, Result, ok, err, none, List, [], ◌∷◌, true,
}
use semantic_intent_protocol.Broker.Discovery.Models.{DiscoveryResponse, DiscoveryRequest}
use semantic_intent_protocol.Envelope.Enums.{TrustLevel}
use semantic_intent_protocol.Registry.Models.{CapabilityDescriptor}
use semantic_intent_protocol.Sdk.Client.{
  json_of, reading, get_path, post_path, Client, HttpResponse, Httpx,
}
use semantic_intent_protocol.Sdk.Errors.{sip_validation_error, SipError}
use semantic_intent_protocol.Sdk.Serialization.{
  parse_discovery_response, parse_capability_descriptor, to_json,
}
use semantic_intent_protocol.Wire.{Json, Schema}

abbrev list_of : Items → List Value
list_of Items.end_items = []
list_of (Items.item v vs) = v ∷ list_of vs

abbrev keys_of : Fields → List Value
keys_of Fields.end_fields = []
keys_of (Fields.field k v fs) = Value.str k ∷ keys_of fs

abbrev chars_of : String → List Value
chars_of String.[] = []
chars_of (String.◌∷◌ c s) = Value.str (String.◌∷◌ c String.[]) ∷ chars_of s

-- What a loop over a value of Python goes through, or the text of its `TypeError`.
elements_of : Value → Result String (List Value)
elements_of (Value.list vs) = ok (list_of vs)
elements_of (Value.dict fs) = ok (keys_of fs)
elements_of (Value.str t) = ok (chars_of t)
elements_of Value.null = err "'NoneType' object is not iterable"
elements_of (Value.bool b) = err "'bool' object is not iterable"
elements_of (Value.int n) = err "'int' object is not iterable"
elements_of (Value.float n) = err "'float' object is not iterable"

-- The argument of `discover_capabilities`.
pub data Query : Type 0 where
  no_query : Query
  query_dict : Fields → Query
  query_request : DiscoveryRequest → Query

abbrev pub default_request : DiscoveryRequest
default_request = record {
  intent_name = none;
  intent_domain = none;
  operation_class = none;
  preferred_bindings = [];
  candidate_capabilities = [];
  trust_level = TrustLevel.internal;
  max_results = 5;
  include_remote = true;
}

invalid_request : {A : Type 0} → Result String A → Result SipError A
invalid_request (ok r) = ok r
invalid_request (err e) = err (sip_validation_error ("Invalid discovery request: " <> e) [])

unfoldable pub request_of : Schema DiscoveryRequest → Query → Result SipError DiscoveryRequest
unfolding invalid_request
request_of R no_query = ok default_request
request_of R (query_dict fields) = invalid_request (R.model_validate (Value.dict fields))
request_of R (query_request r) = ok r

module _ (J : Json) (S : Schema CapabilityDescriptor) where
  -- The comprehension of `list_capabilities`: the first item that fails ends it.
  unfoldable pub parse_items : List Value → Result SipError (List CapabilityDescriptor)
  parse_items [] = ok []
  parse_items (v ∷ vs) =
      let rest = parse_items vs in do c ← parse_capability_descriptor J S v; cs ← rest; ok (c ∷ cs)

  parse_elements : Result String (List Value) → Result SipError (List CapabilityDescriptor)
  unfolding parse_items
  parse_elements (ok vs) = parse_items vs
  parse_elements (err e) =
      err (sip_validation_error ("Failed to parse capability list response: " <> e) [])

  unfoldable pub parse_list : HttpResponse → Result SipError (List CapabilityDescriptor)
  unfolding parse_elements elements_of
  parse_list r = do v ← json_of r; parse_elements (elements_of v)

  unfoldable pub parse_one : HttpResponse → Result SipError CapabilityDescriptor
  parse_one r = do v ← json_of r; parse_capability_descriptor J S v

  module _ (show : ℕ → String) {State : Type 0} (x : Option (Httpx State)) (c : Client) where
    unfoldable pub list_capabilities : State → Result SipError (List CapabilityDescriptor) × State
    unfolding get_path parse_list
    list_capabilities s = reading parse_list (get_path show x c "/sip/capabilities" s)

    unfoldable pub get_capability : String → State → Result SipError CapabilityDescriptor × State
    unfolding get_path parse_one
    get_capability k s = reading parse_one (get_path show x c ("/sip/capabilities/" <> k) s)

module _ {Score : Type 0} (J : Json) (D : Schema (DiscoveryResponse Score)) where
  unfoldable pub parse_response : HttpResponse → Result SipError (DiscoveryResponse Score)
  parse_response r = do v ← json_of r; parse_discovery_response J D v

  module _ (R : Schema DiscoveryRequest) (show : ℕ → String) {State : Type 0}
      (x : Option (Httpx State)) (c : Client) where
    send_request :
        Result SipError DiscoveryRequest → State → Result SipError (DiscoveryResponse Score) × State
    unfolding post_path to_json parse_response
    send_request (err e) s = (err e, s)
    send_request (ok r) s =
        reading parse_response
          (post_path show x c "/sip/capabilities/discover" (to_json R none r) s)

    unfoldable pub discover_capabilities :
        Query → State → Result SipError (DiscoveryResponse Score) × State
    unfolding send_request request_of
    discover_capabilities q s = send_request (request_of R q) s
