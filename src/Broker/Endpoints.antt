-- ===== src/Broker/Endpoints.antt =====
-- The other endpoints of sip/broker/service.py: health, the registry and discovery. They read the
-- broker's state and leave it as it is.
use semantic_intent_protocol.Base.{
  ok, err, Result, map, ◌<>◌, ◌∷◌, pos, String, List, Option, Value, none, some, [],
}
use semantic_intent_protocol.Broker.Discovery.Models.{
  DiscoveryError, DiscoveryResponse, DiscoveryRequest, Scores,
}
use semantic_intent_protocol.Broker.Discovery.Service.{discover}
use semantic_intent_protocol.Broker.Federation.{FederationConfig, FederatedPeer}
use semantic_intent_protocol.Broker.Responses.{
  fields_of, items_of, discovery_raised, failure, JsonResponse, json, Content,
}
use semantic_intent_protocol.Broker.Service.{BrokerService}
use semantic_intent_protocol.Broker.Submission.{read_body}
use semantic_intent_protocol.Envelope.Enums.{binding_type_value, operation_class_value}
use semantic_intent_protocol.Registry.Models.{CapabilityDescriptor}
use semantic_intent_protocol.Registry.Storage.{list_all, get, count}
use semantic_intent_protocol.Wire.{Json, Schema}

abbrev dict_content : List (String × Value) → Content
dict_content entries = json (Value.dict (fields_of entries))

abbrev registered_count : BrokerService → Value
registered_count b = Value.int (pos (count b.registry))

unfoldable pub healthz : BrokerService → JsonResponse
healthz b = record {
  status_code = 200;
  content = dict_content (
      ("status", Value.str "ok")
      ∷ ("version", Value.str "0.1.0")
      ∷ ("capabilities", registered_count b)
      ∷ []);
}

unfoldable pub health : BrokerService → JsonResponse
health b = record {
  status_code = 200;
  content = dict_content (("status", Value.str "ok") ∷ ("capabilities", registered_count b) ∷ []);
}

-- An entry of the legacy listing.
abbrev legacy_entry : CapabilityDescriptor → Value
legacy_entry c = Value.dict (
    fields_of (
      ("capability_id", Value.str c.capability_id)
      ∷ ("name", Value.str c.name)
      ∷ ("operation_class", Value.str (operation_class_value c.operation_class))
      ∷ (
        "supported_bindings",
        Value.list (items_of (map (λ t. Value.str (binding_type_value t)) c.supported_bindings)),
      )
      ∷ []))

unfoldable pub list_capabilities_legacy : BrokerService → JsonResponse
list_capabilities_legacy b = record {
  status_code = 200;
  content = json (Value.list (items_of (map legacy_entry (list_all b.registry))));
}

module _ (S : Schema CapabilityDescriptor) where
  unfoldable pub sip_list_capabilities : BrokerService → JsonResponse
  sip_list_capabilities b = record {
    status_code = 200;
    content = json (Value.list (items_of (map S.model_dump (list_all b.registry))));
  }

  -- The answer for what `get_by_id` finds.
  unfoldable pub found_or_missing : String → Option CapabilityDescriptor → JsonResponse
  found_or_missing k none = record {
    status_code = 404;
    content = dict_content (
        ("error", Value.str "not_found")
        ∷ ("detail", Value.str ("Capability '" <> k <> "' not found."))
        ∷ []);
  }
  found_or_missing k (some c) = record { status_code = 200; content = json (S.model_dump c) }

  unfoldable pub sip_get_capability : String → BrokerService → JsonResponse
  unfolding found_or_missing
  sip_get_capability k b = found_or_missing k (get k b.registry)

unfoldable pub discovered_or_failed :
    {Score : Type 0}
    → Schema (DiscoveryResponse Score)
    → Result DiscoveryError (DiscoveryResponse Score)
    → JsonResponse
discovered_or_failed S (err x) = record {
  status_code = 500;
  content = failure "internal_error" (discovery_raised x);
}
discovered_or_failed S (ok found) = record {
  status_code = 200;
  content = json (S.model_dump found);
}

module _ {Score : Type 0} (scores : Scores Score)
    (ask : FederatedPeer → DiscoveryRequest → Option (List Value)) (lower : String → String) where
  unfoldable pub answer_request :
      Schema (DiscoveryResponse Score)
      → Option FederationConfig
      → BrokerService
      → Result JsonResponse DiscoveryRequest
      → JsonResponse
  unfolding discovered_or_failed
  answer_request S federation b (err refusal) = refusal
  answer_request S federation b (ok r) =
      discovered_or_failed S (discover scores ask lower b.registry federation none r)

  -- The broker's federation and the text of the request's body.
  unfoldable pub sip_discover_capabilities :
      Json
      → Schema DiscoveryRequest
      → Schema (DiscoveryResponse Score)
      → Option FederationConfig
      → String
      → BrokerService
      → JsonResponse
  unfolding answer_request
  sip_discover_capabilities J R S federation text b =
      answer_request S federation b (read_body J R 400 "invalid_discovery_request" text)
