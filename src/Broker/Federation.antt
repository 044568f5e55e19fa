-- ===== src/Broker/Federation.antt =====
-- The federation's configuration and what a peer returns (sip/broker/federation.py).
use semantic_intent_protocol.Base.{
  [], string_eq, ◌==◌, Value, if◌then◌else◌, Dict, Option, keep_if, Bool, List, String, ◌∷◌, none,
  some, true, false,
}

pub data PeerTrustLevel : Type 0 where
  discovery routing full : PeerTrustLevel

pub record FederatedPeer : Type 0 where
  pub broker_id : String
  pub broker_url : String
  pub trust_level : PeerTrustLevel
  pub description : String
  pub metadata : Dict Value

pub record FederationConfig : Type 0 where
  pub broker_id : String
  pub broker_url : String
  pub peers : List FederatedPeer
  pub prefer_local : Bool
  pub strict_mode : Bool

-- `p.trust_level in (DISCOVERY, ROUTING, FULL)`
abbrev may_discover : PeerTrustLevel → Bool
may_discover PeerTrustLevel.discovery = true
may_discover PeerTrustLevel.routing = true
may_discover PeerTrustLevel.full = true

-- `p.trust_level in (ROUTING, FULL)`
abbrev pub may_route : PeerTrustLevel → Bool
may_route PeerTrustLevel.discovery = false
may_route PeerTrustLevel.routing = true
may_route PeerTrustLevel.full = true

unfoldable pub get_peer : String → List FederatedPeer → Option FederatedPeer
get_peer k [] = none
get_peer k (p ∷ ps) = let rest = get_peer k ps in if p.broker_id == k then some p else rest

abbrev pub discovery_peers : FederationConfig → List FederatedPeer
discovery_peers f = keep_if (λ p. may_discover p.trust_level) f.peers

abbrev pub routing_peers : FederationConfig → List FederatedPeer
routing_peers f = keep_if (λ p. may_route p.trust_level) f.peers

-- `Score` is the type of the peers' scores, which are floats in the source.
pub record RemoteCapabilityResult (Score : Type 0) : Type 0 where
  pub source_broker_id : String
  pub source_broker_url : String
  pub peer_trust_level : PeerTrustLevel
  pub capability_data : Dict Value
  pub score : Score
  pub discovery_path : List String
