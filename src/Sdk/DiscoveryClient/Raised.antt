-- ===== src/Sdk/DiscoveryClient/Raised.antt =====
-- What the methods of `CapabilityDiscoveryClient` (sip/sdk/clients.py) raise.
use mathlib.Core.Path.{ap, sym, subst}
use text.Mathlib.TextLemmas.{append_assoc}
use semantic_intent_protocol.Base.{
  [], refl, ◌∙◌, ◌>>=◌, ok_ne_err, List, ◌<◌, err, ok, ◌<>◌, ◌≡◌, Result, String, Value, Option,
  ◌∷◌, none, some, inl, inr, ℕ,
}
use semantic_intent_protocol.Broker.Discovery.Models.{DiscoveryRequest, DiscoveryResponse}
use semantic_intent_protocol.Registry.Models.{CapabilityDescriptor}
use semantic_intent_protocol.Sdk.Client.{post_path, get_path, json_of, Client, Httpx, HttpResponse}
use semantic_intent_protocol.Sdk.Client.Judged.{get_path-IsJudged, get_answer, post_answer}
use semantic_intent_protocol.Sdk.Client.Raised.{
  raises_only, RaisesOnly, json_result_raises, get_path-IsRaised, post_path-IsRaised,
  reading-IsRaised, bind_raises, IsRaised,
}
use semantic_intent_protocol.Sdk.DiscoveryClient.{
  no_query, query_dict, query_request, elements_of, Query, parse_list, parse_one, parse_response,
  discover_capabilities, get_capability, invalid_request, list_capabilities, request_of,
  send_request, parse_elements, parse_items,
}
use semantic_intent_protocol.Sdk.Errors.{sip_validation_error, SipError}
use semantic_intent_protocol.Sdk.Serialization.{
  parse_discovery_response, to_json, parse_capability_descriptor, parse_model,
}
use semantic_intent_protocol.Sdk.Serialization.Laws.{parse_model-IsParseFailure}
use semantic_intent_protocol.Wire.{Schema, Json}

-- A parse that fails.
abbrev IsUnparsed : SipError → Type 0
IsUnparsed e = (rest : String) × (sip_validation_error ("Failed to parse " <> rest) [] ≡ e)

unparsed-IsRaised :
    (answer : Option (Result String HttpResponse)) (e : SipError) → IsUnparsed e → IsRaised answer e
unparsed-IsRaised answer e (rest, same) = subst (IsRaised answer) same (refl, inl (rest, refl))

parse_model-IsUnparsed :
    {A : Type 0} (J : Json) (S : Schema A) (label : String) (v : Value) (e : SipError)
    → parse_model J S label v ≡ err e
    → IsUnparsed e
parse_model-IsUnparsed J S label v e h =
    let (reason, same) = parse_model-IsParseFailure J S label v e h in
    (label <> ": " <> reason, sym same)

-- A reading of a JSON body raises what `json` raises, or a failed parse.
json_of-IsRaised :
    {B : Type 0} (r : HttpResponse) (f : Value → Result SipError B) (e : SipError)
    (answer : Option (Result String HttpResponse))
    → answer ≡ some (ok r)
    → r.status_code < 400
    → ((v : Value) → f v ≡ err e → IsUnparsed e)
    → (json_of r >>= f) ≡ err e
    → IsRaised answer e
json_of-IsRaised r f e answer answered low parses h = elim (bind_raises (json_of r) f e h) [
  | inl k ↦
      let (text, failed, same) = json_result_raises r.json e k in
      subst (IsRaised answer) same (r, answered, low, failed)
  | inr (v, k, g) ↦ unparsed-IsRaised answer e (parses v g)
]

module _ (J : Json) (S : Schema CapabilityDescriptor) where
  parse_items-IsUnparsed :
      (vs : List Value) (e : SipError) → parse_items J S vs ≡ err e → IsUnparsed e
  unfolding parse_items
  parse_items-IsUnparsed [] e h = absurd (ok_ne_err h)
  parse_items-IsUnparsed (v ∷ vs) e h =
      elim (bind_raises (parse_capability_descriptor J S v) _ e h) [
        | inl k ↦ parse_model-IsUnparsed J S "CapabilityDescriptor" v e k
        | inr (c, k, g) ↦ elim (bind_raises (parse_items J S vs) _ e g) [
          | inl l ↦ parse_items-IsUnparsed vs e l
          | inr (cs, l, last) ↦ absurd (ok_ne_err last)
        ]
      ]

  parse_elements-IsUnparsed :
      (o : Result String (List Value)) (e : SipError) → parse_elements J S o ≡ err e → IsUnparsed e
  unfolding parse_elements
  parse_elements-IsUnparsed (ok vs) e h = parse_items-IsUnparsed vs e h
  parse_elements-IsUnparsed (err t) e h =
      let text : String = "capability list response: " <> t in
      let same : sip_validation_error ("Failed to parse capability list response: " <> t) [] ≡ e =
        cc in
      (
        text,
        ap (λ m. sip_validation_error m [])
              (sym (append_assoc "Failed to parse " "capability list response: " t))
            ∙ same,
      )

  module _ (show : ℕ → String) {State : Type 0} (x : Option (Httpx State)) (c : Client)
      (s : State) where
    list_capabilities-IsRaised :
        (e : SipError)
        → (list_capabilities J S show x c s).0 ≡ err e
        → IsRaised (get_answer show c s x "/sip/capabilities") e
    unfolding list_capabilities parse_list
    list_capabilities-IsRaised e h =
        let answer = get_answer show c s x "/sip/capabilities" in
        reading-IsRaised answer (get_path show x c "/sip/capabilities" s).0 (parse_list J S) e
          (get_path-IsJudged show c s x "/sip/capabilities" "").0
          (get_path-IsRaised show c s x "/sip/capabilities" e)
          (λ r a low k.
            json_of-IsRaised r (λ v. parse_elements J S (elements_of v)) e answer a low
              (λ v. parse_elements-IsUnparsed (elements_of v) e) k)
          h

    get_capability-IsRaised :
        (k : String) (e : SipError)
        → (get_capability J S show x c k s).0 ≡ err e
        → IsRaised (get_answer show c s x ("/sip/capabilities/" <> k)) e
    unfolding get_capability parse_one
    get_capability-IsRaised k e h =
        let path : String = "/sip/capabilities/" <> k in
        let answer = get_answer show c s x path in
        reading-IsRaised answer (get_path show x c path s).0 (parse_one J S) e
          (get_path-IsJudged show c s x path "").0 (get_path-IsRaised show c s x path e)
          (λ r a low g.
            json_of-IsRaised r (parse_capability_descriptor J S) e answer a low
              (λ v. parse_model-IsUnparsed J S "CapabilityDescriptor" v e) g)
          h

-- The JSON text of the request that is sent; nothing is sent where there is none.
abbrev pub sent_body : Schema DiscoveryRequest → Result SipError DiscoveryRequest → String
sent_body R (ok r) = to_json R none r
sent_body R (err e) = ""

module _ {Score : Type 0} (J : Json) (D : Schema (DiscoveryResponse Score))
    (R : Schema DiscoveryRequest) (show : ℕ → String) {State : Type 0} (x : Option (Httpx State))
    (c : Client) (s : State) where
  request_of-IsRaised :
      (o : Result String DiscoveryRequest) (e : SipError)
      (answer : Option (Result String HttpResponse))
      → invalid_request o ≡ err e
      → IsRaised answer e
  unfolding invalid_request
  request_of-IsRaised (ok r) e answer h = absurd (ok_ne_err h)
  request_of-IsRaised (err t) e answer h =
      let same : sip_validation_error ("Invalid discovery request: " <> t) [] ≡ e = cc in
      subst (IsRaised answer) same (refl, inr (t, refl))

  query-IsRaised :
      (q : Query) (e : SipError) (answer : Option (Result String HttpResponse))
      → request_of R q ≡ err e
      → IsRaised answer e
  unfolding request_of
  query-IsRaised no_query e answer h = absurd (ok_ne_err h)
  query-IsRaised (query_dict fields) e answer h =
      request_of-IsRaised (R.model_validate (Value.dict fields)) e answer h
  query-IsRaised (query_request r) e answer h = absurd (ok_ne_err h)

  send_request-RaisesOnly :
      (o : Result SipError DiscoveryRequest)
      → ((answer : Option (Result String HttpResponse)) (e : SipError)
          → o ≡ err e
          → IsRaised answer e)
      → RaisesOnly
          (post_answer show c s x "/sip/capabilities/discover" (sent_body R o))
          (send_request J D R show x c o s).0
  unfolding send_request parse_response
  send_request-RaisesOnly (err e) invalid = invalid _ e refl
  send_request-RaisesOnly (ok r) invalid =
      let path : String = "/sip/capabilities/discover" in
      let body : String = to_json R none r in
      let answer = post_answer show c s x path body in
      raises_only answer _ (λ e.
        reading-IsRaised answer (post_path show x c path body s).0 (parse_response J D) e
          (get_path-IsJudged show c s x path body).1 (post_path-IsRaised show c s x path body e)
          (λ q a low g.
            json_of-IsRaised q (parse_discovery_response J D) e answer a low
              (λ v. parse_model-IsUnparsed J D "DiscoveryResponse" v e) g))

  -- Whatever httpx answers, the methods of the discovery client raise nothing but four kinds of
  -- exceptions: a client error where the package is missing or httpx raises; an HTTP error with the
  -- status and the text of a response of 400 or above; a validation error whose message begins with
  -- "Failed to parse " or "Invalid discovery request: " and whose list of errors is empty; and what
  -- the `json` of a response below 400 raises, as it is.
  pub get_capability-RaisesOnly :
      (S : Schema CapabilityDescriptor) (k : String) (q : Query)
      → RaisesOnly
          (get_answer show c s x ("/sip/capabilities/" <> k))
          (get_capability J S show x c k s).0
        × RaisesOnly
            (get_answer show c s x "/sip/capabilities")
            (list_capabilities J S show x c s).0
        × RaisesOnly
            (post_answer show c s x "/sip/capabilities/discover" (sent_body R (request_of R q)))
            (discover_capabilities J D R show x c q s).0
  unfolding discover_capabilities
  get_capability-RaisesOnly S k q = (
    raises_only _ _ (get_capability-IsRaised J S show x c s k),
    raises_only _ _ (list_capabilities-IsRaised J S show x c s),
    send_request-RaisesOnly (request_of R q) (λ answer e. query-IsRaised q e answer),
  )
