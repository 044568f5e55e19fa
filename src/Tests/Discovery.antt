-- ===== src/Tests/Discovery.antt =====
-- The theorems on discovery, on a broker with one peer. Scores are halves of a point.
use semantic_intent_protocol.Base.{
  refl, map, [], In, ◌↔◌, ok, ◌≡◌, text_leb, contains_text, sorted, insert, lookup, ◌+◌, leb,
  Fields, ◌∷◌, none, some, true, false, pos, ℕ, List, Option, Value,
}
use semantic_intent_protocol.Broker.Discovery.Candidates.{
  candidates_of, aggregate, remote_to_candidate, cap_to_candidate,
}
use semantic_intent_protocol.Broker.Discovery.Failures.{discover-Converts}
use semantic_intent_protocol.Broker.Discovery.Local.{discover_local}
use semantic_intent_protocol.Broker.Discovery.Models.{
  DiscoveryCandidate, DiscoveryRequest, DiscoveryResponse, Scores,
}
use semantic_intent_protocol.Broker.Discovery.Remote.{answer_of}
use semantic_intent_protocol.Broker.Discovery.Service.{
  answer_or_raise, no_answers, query_peers, respond, discover,
}
use semantic_intent_protocol.Broker.Discovery.Trust.{discover-IsOffered, IsOffered}
use semantic_intent_protocol.Broker.Federation.{
  discovery_peers, RemoteCapabilityResult, PeerTrustLevel, FederatedPeer, FederationConfig,
}
use semantic_intent_protocol.Envelope.Enums.{TrustLevel}
use semantic_intent_protocol.Registry.Service.{find_matches}
use semantic_intent_protocol.Registry.Storage.{list_all}
use semantic_intent_protocol.Tests.{library, same_text, get_article}

abbrev pub half_points : Scores ℕ
half_points = record {
  leb_score = leb;
  from_halves = λ n. n;
  float_of = λ v. elim v [ Value.int (pos n) ↦ some (n + n) | _ ↦ none ];
}

abbrev peer : FederatedPeer
peer = record {
  broker_id = "east";
  broker_url = "http://east";
  trust_level = PeerTrustLevel.routing;
  description = "";
  metadata = [];
}

abbrev pub federation : FederationConfig
federation = record {
  broker_id = "west";
  broker_url = "http://west";
  peers = peer ∷ [];
  prefer_local = true;
  strict_mode = false;
}

-- The peer gives one candidate, and then an item that is no dict.
abbrev remote_item : Value
remote_item = Value.dict (
    Fields.field "capability_id" (Value.str "far_article")
      (Fields.field "score" (Value.int (pos 2)) Fields.end_fields))

abbrev pub ask_east : FederatedPeer → DiscoveryRequest → Option (List Value)
ask_east p r = some (remote_item ∷ Value.null ∷ [])

abbrev pub article_search : DiscoveryRequest
article_search = record {
  intent_name = some "get_article";
  intent_domain = none;
  operation_class = none;
  preferred_bindings = [];
  candidate_capabilities = [];
  trust_level = TrustLevel.internal;
  max_results = 5;
  include_remote = true;
}

abbrev far_article : DiscoveryCandidate ℕ
far_article = record {
  capability_id = "far_article";
  name = "";
  description = "";
  operation_class = "";
  supported_bindings = [];
  intent_domains = [];
  minimum_trust_tier = "internal";
  score = 4;
  source_broker_id = some "east";
  source_broker_url = some "http://east";
  routing_allowed = true;
  discovery_path = "east" ∷ [];
  extensions = [];
}

abbrev pub found : DiscoveryResponse ℕ
found = record {
  candidates = cap_to_candidate half_points (some "west") (get_article, 10) ∷ far_article ∷ [];
  total = 2;
  local_count = 1;
  remote_count = 1;
  peers_queried = "east" ∷ [];
  peers_failed = "east" ∷ [];
}

pub discovered :
    discover half_points ask_east same_text library (some federation) none article_search ≡ ok found
unfolding discover find_matches lookup insert sorted contains_text list_all cap_to_candidate
    text_leb
discovered = refl

discover-Converts_example :
    ((resp : DiscoveryResponse ℕ) × (discover half_points ask_east same_text library
          (some federation)
          none
          article_search
        ≡ ok resp))
    ↔ ((p : FederatedPeer) (rr : RemoteCapabilityResult ℕ)
        → In p (discovery_peers federation)
        → In rr (answer_of half_points p (ask_east p article_search)).0
        → (c : DiscoveryCandidate ℕ) × (remote_to_candidate half_points rr ≡ some c))
discover-Converts_example =
    discover-Converts half_points ask_east same_text library federation none article_search refl
      refl

-- A request without an intent and a domain.
abbrev unnamed_search : DiscoveryRequest
unnamed_search = record article_search { intent_name = none; intent_domain = none }

abbrev offered : DiscoveryResponse ℕ
offered =
    respond half_points 5 (no_answers half_points)
      (map (λ c. cap_to_candidate half_points none (c, 0)) (list_all library))

unnamed_offered :
    discover half_points ask_east same_text library none none unnamed_search ≡ ok offered
unfolding discover discover_local respond list_all query_peers aggregate candidates_of
    answer_or_raise sorted
unnamed_offered = refl

discover-IsOffered_example :
    IsOffered half_points ask_east same_text library none unnamed_search offered.candidates
discover-IsOffered_example =
    discover-IsOffered half_points ask_east same_text library none unnamed_search offered
      unnamed_offered
