-- ===== src/Broker/Discovery/Models.antt =====
-- The request and the response of a discovery (sip/broker/discovery.py).
use semantic_intent_protocol.Base.{ℕ, Bool, String, List, Option, Dict, Value}
use semantic_intent_protocol.Envelope.Enums.{TrustLevel, BindingType, OperationClass}

-- Python's floats as far as scores need them.
pub record Scores (Score : Type 0) : Type 0 where
  -- `a <= b`
  pub leb_score : Score → Score → Bool
  -- A score that is counted in halves of a point.
  pub from_halves : ℕ → Score
  -- `float(v)`, where it does not raise.
  pub float_of : Value → Option Score

pub record DiscoveryRequest : Type 0 where
  pub intent_name : Option String
  pub intent_domain : Option String
  pub operation_class : Option OperationClass
  pub preferred_bindings : List BindingType
  pub candidate_capabilities : List String
  pub trust_level : TrustLevel
  pub max_results : ℕ
  pub include_remote : Bool

pub record DiscoveryCandidate (Score : Type 0) : Type 0 where
  pub capability_id : String
  pub name : String
  pub description : String
  pub operation_class : String
  pub supported_bindings : List String
  pub intent_domains : List String
  pub minimum_trust_tier : String
  pub score : Score
  pub source_broker_id : Option String
  pub source_broker_url : Option String
  pub routing_allowed : Bool
  pub discovery_path : List String
  pub extensions : Dict Value

pub record DiscoveryResponse (Score : Type 0) : Type 0 where
  pub candidates : List (DiscoveryCandidate Score)
  pub total : ℕ
  pub local_count : ℕ
  pub remote_count : ℕ
  pub peers_queried : List String
  pub peers_failed : List String

-- What `discover` raises: a peer that failed in strict mode, or a peer's item that is no candidate.
pub data DiscoveryError : Type 0 where
  peer_unavailable : String → DiscoveryError
  invalid_candidate : DiscoveryError
