-- ===== src/Broker/Discovery/Routing.antt =====
-- Where the candidates of a discovery come from, and to which of them a broker may route.
use semantic_intent_protocol.Base.{In, ◌≡◌, ◌∷◌, none, some, true, String, List, Option}
use semantic_intent_protocol.Broker.Discovery.Models.{DiscoveryCandidate, Scores}
use semantic_intent_protocol.Broker.Federation.{
  may_route, discovery_peers, FederationConfig, FederatedPeer,
}

module _ {Score : Type 0} (scores : Scores Score) where
  -- A candidate of the broker itself, or one of a peer of the federation, with what the peer's trust
  -- allows.
  pub data IsSourced (federation : Option FederationConfig) (c : DiscoveryCandidate Score)
      : Type 0 where
    own : c.source_broker_id ≡ none → c.routing_allowed ≡ true → IsSourced federation c
    peers :
        (f : FederationConfig) (p : FederatedPeer)
        → federation ≡ some f
        → In p (discovery_peers f)
        → c.source_broker_id ≡ some p.broker_id
        → c.routing_allowed ≡ may_route p.trust_level
        → (rest : List String) × (c.discovery_path ≡ (p.broker_id ∷ rest))
        → IsSourced federation c
