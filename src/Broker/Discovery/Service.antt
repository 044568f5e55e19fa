-- ===== src/Broker/Discovery/Service.antt =====
-- `discover` (sip/broker/discovery.py).
use semantic_intent_protocol.Base.{
  true, [], is_some, err, not, Bool, keep_if, ok, length, Result, is_blank, take, if◌then◌else◌,
  String, Value, List, Option, ℕ, none, some, ◌>>=◌,
}
use semantic_intent_protocol.Broker.Discovery.Candidates.{aggregate}
use semantic_intent_protocol.Broker.Discovery.Local.{discover_local}
use semantic_intent_protocol.Broker.Discovery.Models.{
  DiscoveryError, DiscoveryResponse, DiscoveryCandidate, DiscoveryRequest, Scores,
}
use semantic_intent_protocol.Broker.Discovery.Remote.{ask_peers, RemoteAnswers}
use semantic_intent_protocol.Broker.Federation.{discovery_peers, FederationConfig, FederatedPeer}
use semantic_intent_protocol.Registry.Storage.{CapabilityStore}

abbrev pub prefers_local : Option FederationConfig → Bool
prefers_local none = true
prefers_local (some f) = f.prefer_local

-- `self._local_broker_id`
abbrev pub broker_id_of : Option FederationConfig → Option String → Option String
broker_id_of none id = id
broker_id_of (some f) none = some f.broker_id
broker_id_of (some f) (some k) = some (if is_blank k then f.broker_id else k)

module _ {Score : Type 0} (scores : Scores Score) where
  -- The trim to `max_results`, and the counts.
  unfoldable pub respond :
      ℕ → RemoteAnswers Score → List (DiscoveryCandidate Score) → DiscoveryResponse Score
  respond max_results answers all =
      let candidates = take max_results all in
      record {
        candidates = candidates;
        total = length candidates;
        local_count = length (keep_if (λ c. not (is_some c.source_broker_id)) candidates);
        remote_count = length (keep_if (λ c. is_some c.source_broker_id) candidates);
        peers_queried = answers.queried;
        peers_failed = answers.failed;
      }

  unfoldable pub answer_or_raise :
      ℕ
      → RemoteAnswers Score
      → Option (List (DiscoveryCandidate Score))
      → Result DiscoveryError (DiscoveryResponse Score)
  unfolding respond
  answer_or_raise max_results answers none = err DiscoveryError.invalid_candidate
  answer_or_raise max_results answers (some all) = ok (respond max_results answers all)

  abbrev pub no_answers : RemoteAnswers Score
  no_answers = record { results = []; queried = []; failed = [] }

  module _ (ask : FederatedPeer → DiscoveryRequest → Option (List Value)) where
    unfoldable pub query_peers :
        DiscoveryRequest → Option FederationConfig → Result DiscoveryError (RemoteAnswers Score)
    unfolding ask_peers
    query_peers r none = ok no_answers
    query_peers r (some f) =
        let answers = ask_peers scores (λ p. ask p r) f.strict_mode (discovery_peers f) in
        if r.include_remote then answers else ok no_answers

    module _ (lower : String → String) where
      unfoldable pub discover :
          CapabilityStore
          → Option FederationConfig
          → Option String
          → DiscoveryRequest
          → Result DiscoveryError (DiscoveryResponse Score)
      unfolding discover_local query_peers aggregate answer_or_raise
      discover s federation id r = do
        answers ← query_peers r federation
        answer_or_raise r.max_results answers (
            aggregate scores (prefers_local federation) (broker_id_of federation id)
              (discover_local lower s r) answers.results)
