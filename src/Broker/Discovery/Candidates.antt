-- ===== src/Broker/Discovery/Candidates.antt =====
-- The candidates of a discovery and their aggregation (sip/broker/discovery.py). `none` is what
-- the model refuses with an exception.
use semantic_intent_protocol.Base.{
  true, [], is_blank, leb, nat_eqb, sorted, text_leb, dict_of, ◌&&◌, ◌<>◌, lookup, ◌∷◌, none, some,
  ℕ, Bool, String, List, Option, Dict, Value, map, if◌then◌else◌, ◌++◌,
}
use semantic_intent_protocol.Base.Optional.{◌>>=◌}
use semantic_intent_protocol.Broker.Discovery.Models.{DiscoveryCandidate, Scores}
use semantic_intent_protocol.Broker.Discovery.Remote.{texts_field}
use semantic_intent_protocol.Broker.Federation.{may_route, RemoteCapabilityResult, PeerTrustLevel}
use semantic_intent_protocol.Envelope.Enums.{
  trust_level_value, binding_type_value, operation_class_value,
}
use semantic_intent_protocol.Registry.Service.{Scored}
use mathlib.Core.Option

abbrev peer_trust_order : PeerTrustLevel → ℕ
peer_trust_order PeerTrustLevel.discovery = 0
peer_trust_order PeerTrustLevel.routing = 1
peer_trust_order PeerTrustLevel.full = 2

-- `cap.get(key, default)`, as the model wants it: a text.
text_field : String → String → Dict Value → Option String
text_field key default d = elim (lookup key d) [
  | none ↦ some default
  | some (Value.str t) ↦ some t
  | some _ ↦ none
]

dict_field : String → Dict Value → Option (Dict Value)
dict_field key d = elim (lookup key d) [
  | none ↦ some []
  | some (Value.dict fs) ↦ some (dict_of fs)
  | some _ ↦ none
]

-- The fields of a candidate that a peer's item gives.
pub record RemoteFields : Type 0 where
  capability_id : String
  name : String
  description : String
  operation_class : String
  supported_bindings : List String
  intent_domains : List String
  minimum_trust_tier : String
  extensions : Dict Value

unfoldable pub read_fields : Dict Value → Option RemoteFields
unfolding text_field texts_field dict_field
read_fields d = do
  capability_id ← text_field "capability_id" "" d
  name ← text_field "name" "" d
  description ← text_field "description" "" d
  operation_class ← text_field "operation_class" "" d
  supported_bindings ← texts_field "supported_bindings" d
  intent_domains ← texts_field "intent_domains" d
  minimum_trust_tier ← text_field "minimum_trust_tier" "internal" d
  extensions ← dict_field "extensions" d
  some (record {
    capability_id = capability_id;
    name = name;
    description = description;
    operation_class = operation_class;
    supported_bindings = supported_bindings;
    intent_domains = intent_domains;
    minimum_trust_tier = minimum_trust_tier;
    extensions = extensions;
  })

module _ {Score : Type 0} (scores : Scores Score) where
  -- `_cap_to_candidate`, with the id of the broker itself.
  unfoldable pub cap_to_candidate : Option String → Scored → DiscoveryCandidate Score
  cap_to_candidate broker (c, n) = record {
    capability_id = c.capability_id;
    name = c.name;
    description = c.description;
    operation_class = operation_class_value c.operation_class;
    supported_bindings = map binding_type_value c.supported_bindings;
    intent_domains = c.intent_domains;
    minimum_trust_tier = trust_level_value c.minimum_trust_tier;
    score = scores.from_halves n;
    source_broker_id = none;
    source_broker_url = none;
    routing_allowed = true;
    discovery_path = elim broker [ none ↦ [] | some k ↦ if is_blank k then [] else k ∷ [] ];
    extensions = c.extensions;
  }

  unfoldable pub with_fields :
      RemoteCapabilityResult Score → RemoteFields → DiscoveryCandidate Score
  with_fields rr f = record {
    capability_id = f.capability_id;
    name = f.name;
    description = f.description;
    operation_class = f.operation_class;
    supported_bindings = f.supported_bindings;
    intent_domains = f.intent_domains;
    minimum_trust_tier = f.minimum_trust_tier;
    score = rr.score;
    source_broker_id = some rr.source_broker_id;
    source_broker_url = some rr.source_broker_url;
    routing_allowed = may_route rr.peer_trust_level;
    discovery_path = rr.discovery_path;
    extensions = f.extensions;
  }

  -- `_remote_to_candidate`: `none` where the model refuses a field.
  unfoldable pub remote_to_candidate :
      RemoteCapabilityResult Score → Option (DiscoveryCandidate Score)
  unfolding read_fields with_fields
  remote_to_candidate rr = Option.map (with_fields rr) (read_fields rr.capability_data)

  -- `a == b`, for scores.
  abbrev eq_score : Score → Score → Bool
  eq_score a b = scores.leb_score a b && scores.leb_score b a

  -- The order of the key `(-trust, -score, source_broker_id)`.
  unfoldable pub remote_leb : RemoteCapabilityResult Score → RemoteCapabilityResult Score → Bool
  remote_leb a b =
      if nat_eqb (peer_trust_order a.peer_trust_level) (peer_trust_order b.peer_trust_level)
      then (if eq_score a.score b.score
          then text_leb a.source_broker_id b.source_broker_id
          else scores.leb_score b.score a.score)
      else leb (peer_trust_order b.peer_trust_level) (peer_trust_order a.peer_trust_level)

  abbrev marked_id : Option String → String
  marked_id none = ""
  marked_id (some k) = "z" <> k

  -- The order of `sort_key`.
  unfoldable pub candidate_leb : DiscoveryCandidate Score → DiscoveryCandidate Score → Bool
  candidate_leb a b =
      if eq_score a.score b.score
      then text_leb (marked_id a.source_broker_id) (marked_id b.source_broker_id)
      else scores.leb_score b.score a.score

  unfoldable pub candidates_of :
      List (RemoteCapabilityResult Score) → Option (List (DiscoveryCandidate Score))
  unfolding remote_to_candidate
  candidates_of [] = some []
  candidates_of (rr ∷ rrs) = do c ← remote_to_candidate rr; cs ← candidates_of rrs; some (c ∷ cs)

  unfoldable pub aggregate :
      Bool
      → Option String
      → List Scored
      → List (RemoteCapabilityResult Score)
      → Option (List (DiscoveryCandidate Score))
  unfolding cap_to_candidate candidates_of remote_leb candidate_leb
  aggregate prefer_local broker locals remotes = do
    remote_dc ← candidates_of (sorted remote_leb remotes)
    let all = map (cap_to_candidate broker) locals ++ remote_dc
    some (if prefer_local then all else sorted candidate_leb all)
