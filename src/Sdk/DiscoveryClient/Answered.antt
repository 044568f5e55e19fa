-- ===== src/Sdk/DiscoveryClient/Answered.antt =====
-- What `discover_capabilities` (sip/sdk/clients.py) gets of a broker that its request reaches.
use mathlib.Core.Path.{subst}
use semantic_intent_protocol.Base.{
  some, none, ◌<>◌, ◌∙◌, ap, sym, ◌↔◌, List, ok, ok_ne_err, Option, err, Result, ◌≡◌, String, ℕ,
  Value, ◌>>=◌,
}
use semantic_intent_protocol.Broker.Discovery.Models.{
  DiscoveryError, Scores, DiscoveryResponse, DiscoveryRequest,
}
use semantic_intent_protocol.Broker.Discovery.Service.{discover}
use semantic_intent_protocol.Broker.Endpoints.{
  answer_request, sip_discover_capabilities, discovered_or_failed,
}
use semantic_intent_protocol.Broker.Federation.{FederationConfig, FederatedPeer}
use semantic_intent_protocol.Broker.Responses.{content_value, ResponseBody, Content}
use semantic_intent_protocol.Broker.Service.{BrokerService}
use semantic_intent_protocol.Broker.Submission.Body.{read_body-dump_json}
use semantic_intent_protocol.Sdk.Client.{reading, Client, Httpx, status_error, raise_for_status}
use semantic_intent_protocol.Sdk.Client.Exchange.{
  post_path-answered, json_of-delivered, IsHttpError, delivered,
}
use semantic_intent_protocol.Sdk.DiscoveryClient.{
  send_request, request_of, Query, discover_capabilities, parse_response,
}
use semantic_intent_protocol.Sdk.Errors.{SipError}
use semantic_intent_protocol.Sdk.Serialization.{parse_discovery_response, to_json}
use semantic_intent_protocol.Sdk.Serialization.Laws.{parse-dump}
use semantic_intent_protocol.Wire.{IsWritten, IsDumped, IsRead, Schema, Json}

module _ {Score : Type 0} (J : Json) (detail_text : DiscoveryError → String)
    (body_value : ResponseBody → Value) (R : Schema DiscoveryRequest)
    (D : Schema (DiscoveryResponse Score)) (show : ℕ → String) where
  abbrev value_of : Content → Value
  value_of = content_value detail_text body_value

  -- What a client gets for the outcome of the broker's `discover`.
  pub record IsRelayed (outcome : Result DiscoveryError (DiscoveryResponse Score))
      (answer : Result SipError (DiscoveryResponse Score)) : Type 0 where
    pub returns : (found : DiscoveryResponse Score) → (answer ≡ ok found) ↔ (outcome ≡ ok found)
    pub raises : (x : SipError) → answer ≡ err x → IsHttpError 500 x

  abbrev relayed :
      String
      → Result DiscoveryError (DiscoveryResponse Score)
      → Result SipError (DiscoveryResponse Score)
  relayed url outcome =
      raise_for_status show (delivered J value_of url (discovered_or_failed D outcome))
      >>= parse_response J D

  -- A response that was found is dumped as one that is validated.
  abbrev pub IsResponseDumped : Result DiscoveryError (DiscoveryResponse Score) → Type 0
  IsResponseDumped (ok found) = IsDumped D found
  IsResponseDumped (err reason) = Unit

  returned :
      (url : String) (found : DiscoveryResponse Score)
      → IsDumped D found
      → IsRead J (D.model_dump found)
      → relayed url (ok found) ≡ ok found
  unfolding discovered_or_failed parse_response raise_for_status
  returned url found dumped readable =
      ap (λ v. v >>= parse_discovery_response J D)
        (json_of-delivered J value_of url (discovered_or_failed D (ok found)) readable)
      ∙ parse-dump J D "DiscoveryResponse" found dumped

  relayed-IsRelayed :
      (url : String) (outcome : Result DiscoveryError (DiscoveryResponse Score))
      → IsResponseDumped outcome
      → IsRead J (value_of (discovered_or_failed D outcome).content)
      → IsRelayed outcome (relayed url outcome)
  unfolding discovered_or_failed raise_for_status
  relayed-IsRelayed url (err reason) dumped readable = record {
    returns = λ found. (λ h. absurd (ok_ne_err (sym h)), λ h. absurd (ok_ne_err (sym h)));
    raises = λ x h.
        let failed =
          status_error show (delivered J value_of url (discovered_or_failed D (err reason))) in
        let same : failed ≡ x = cc in (_, _, sym same);
  }
  relayed-IsRelayed url (ok found) dumped readable =
      let relays = returned url found dumped readable in
      record {
        returns = λ other. (
          λ h.
              let both : ok found ≡ ok other = sym relays ∙ h in
              let same : found ≡ other = cc in ap ok same,
          λ h. let same : found ≡ other = cc in relays ∙ ap ok same,
        );
        raises = λ x h. absurd (ok_ne_err (sym relays ∙ h));
      }

  module _ (scores : Scores Score) (ask : FederatedPeer → DiscoveryRequest → Option (List Value))
      (lower : String → String) where
    answered :
        (federation : Option FederationConfig) (b : BrokerService) (r : DiscoveryRequest)
        → IsDumped R r
        → IsWritten J R r
        → sip_discover_capabilities scores ask lower J R D federation (R.model_dump_json r none) b
          ≡ discovered_or_failed D (discover scores ask lower b.registry federation none r)
    unfolding sip_discover_capabilities answer_request
    answered federation b r dumped written =
        ap (answer_request scores ask lower D federation b)
          (read_body-dump_json J R r dumped written 400 "invalid_discovery_request" none)

    -- If its request reaches the endpoint and what is sent and delivered is read back,
    -- `discover_capabilities` returns the response that the broker's discovery gives for the request,
    -- and where the discovery raises it raises the error for status 500. The broker's state is left
    -- as it is.
    pub discover_capabilities-IsRelayed :
        (x : Httpx BrokerService) (c : Client) (federation : Option FederationConfig)
        (b : BrokerService) (q : Query) (r : DiscoveryRequest)
        → request_of R q ≡ ok r
        → IsDumped R r
        → IsWritten J R r
        → IsResponseDumped (discover scores ask lower b.registry federation none r)
        → IsRead J (
            value_of
              (discovered_or_failed D
                (discover scores ask lower b.registry federation none r)).content)
        → x.http_post
            (c.base_url <> "/sip/capabilities/discover")
            (R.model_dump_json r none)
            c.headers
            c.timeout
            b
          ≡ (
            ok (
                delivered J value_of (c.base_url <> "/sip/capabilities/discover") (
                  sip_discover_capabilities scores ask lower J R D federation
                    (R.model_dump_json r none)
                    b)),
            b,
          )
        → IsRelayed
            (discover scores ask lower b.registry federation none r)
            (discover_capabilities J D R show (some x) c q b).0
          × ((discover_capabilities J D R show (some x) c q b).1 ≡ b)
    unfolding discover_capabilities to_json
    discover_capabilities-IsRelayed x c federation b q r asked dumped written returns readable h =
        let url = c.base_url <> "/sip/capabilities/discover" in
        let outcome = discover scores ask lower b.registry federation none r in
        let reached =
          h
          ∙ ap (λ a. (ok (delivered J value_of url a), b))
              (answered federation b r dumped written) in
        let exchange =
          post_path-answered show x c b b
            (delivered J value_of url (discovered_or_failed D outcome)) "/sip/capabilities/discover"
            (R.model_dump_json r none) reached in
        let sent =
          ap (λ o. send_request J D R show (some x) c o b) asked
          ∙ ap (reading (parse_response J D)) exchange in
        (
          subst (λ p. IsRelayed outcome p.0) (sym sent)
              (relayed-IsRelayed url outcome returns readable),
          ap (λ p. p.1) sent,
        )
