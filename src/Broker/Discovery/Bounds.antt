-- ===== src/Broker/Discovery/Bounds.antt =====
-- What `discover` returns, in numbers.
use mathlib.Core.Path.{sym, subst}
use semantic_intent_protocol.Base.{
  refl, [], take, is_some, length-take, ok-bind, ok, ◌≤◌, arith, ◌≡◌, ◌+◌, not, keep_if, length,
  ◌∷◌, none, some, ℕ, Bool, String, List, Option, Value,
}
use semantic_intent_protocol.Broker.Discovery.Candidates.{aggregate}
use semantic_intent_protocol.Broker.Discovery.Local.{discover_local}
use semantic_intent_protocol.Broker.Discovery.Models.{
  DiscoveryCandidate, DiscoveryResponse, DiscoveryRequest, Scores,
}
use semantic_intent_protocol.Broker.Discovery.Remote.{RemoteAnswers}
use semantic_intent_protocol.Broker.Discovery.Service.{
  broker_id_of, prefers_local, query_peers, answer_or_raise, discover, respond,
}
use semantic_intent_protocol.Broker.Federation.{FederationConfig, FederatedPeer}
use semantic_intent_protocol.Registry.Storage.{CapabilityStore}

length-keep_if :
    {A : Type 0} (p : A → Bool) (xs : List A)
    → length (keep_if (λ a. not (p a)) xs) + length (keep_if p xs) ≡ length xs
length-keep_if p [] = refl
length-keep_if p (x ∷ xs) = ground (arith, length-keep_if p xs)

module _ {Score : Type 0} (scores : Scores Score)
    (ask : FederatedPeer → DiscoveryRequest → Option (List Value)) (lower : String → String)
    (s : CapabilityStore) (federation : Option FederationConfig) (id : Option String)
    (r : DiscoveryRequest) where
  answer_or_raise-ok :
      (answers : RemoteAnswers Score) (o : Option (List (DiscoveryCandidate Score))) (n : ℕ)
      (resp : DiscoveryResponse Score)
      → answer_or_raise scores n answers o ≡ ok resp
      → (all : List (DiscoveryCandidate Score)) × (o ≡ some all)
        × (resp ≡ respond scores n answers all)
  unfolding answer_or_raise
  answer_or_raise-ok answers none n resp h = cc
  answer_or_raise-ok answers (some all) n resp h = (all, refl, cc)

  -- What a response is made of.
  pub discover-ok :
      (resp : DiscoveryResponse Score)
      → discover scores ask lower s federation id r ≡ ok resp
      → (answers : RemoteAnswers Score) × (all : List (DiscoveryCandidate Score)) × (query_peers
            scores ask r federation
          ≡ ok answers)
        × (aggregate scores
              (prefers_local federation)
              (broker_id_of federation id)
              (discover_local lower s r)
              answers.results
            ≡ some all)
        × (resp ≡ respond scores r.max_results answers all)
  unfolding discover
  discover-ok resp h =
      let (answers, asked, h1) = ok-bind (query_peers scores ask r federation) _ resp h in
      let (all, joined, h2) =
        answer_or_raise-ok answers
          (aggregate scores (prefers_local federation) (broker_id_of federation id)
            (discover_local lower s r) answers.results)
          r.max_results resp h1 in
      (answers, all, asked, joined, h2)

  -- The numbers of a response add up.
  pub record IsCounted (resp : DiscoveryResponse Score) : Type 0 where
    pub bound : length resp.candidates ≤ r.max_results
    pub total : resp.total ≡ length resp.candidates
    pub counts : resp.local_count + resp.remote_count ≡ resp.total

  respond-IsCounted :
      (answers : RemoteAnswers Score) (all : List (DiscoveryCandidate Score))
      → IsCounted (respond scores r.max_results answers all)
  unfolding respond
  respond-IsCounted answers all = record {
    bound = omega (arith, length-take r.max_results all);
    total = refl;
    counts = length-keep_if (λ c. is_some c.source_broker_id) (take r.max_results all);
  }

  -- A response has no more candidates than the request asks for, its total is their number, and the
  -- counts of local and of remote ones add up to it.
  pub discover-IsCounted :
      (resp : DiscoveryResponse Score)
      → discover scores ask lower s federation id r ≡ ok resp
      → IsCounted resp
  discover-IsCounted resp h =
      let (answers, all, asked, joined, same) = discover-ok resp h in
      subst IsCounted (sym same) (respond-IsCounted answers all)
