-- ===== src/Broker/Discovery/Remote.antt =====
-- `_discover_remote` (sip/broker/discovery.py).
use semantic_intent_protocol.Base.{
  false, [], ◌>>=◌, err, ◌&&◌, ok, if◌then◌else◌, Result, dict_of, ◌++◌, Items, lookup, ◌∷◌, none,
  some, true, Bool, String, List, Option, Dict, Value,
}
use semantic_intent_protocol.Broker.Discovery.Models.{DiscoveryError, Scores}
use semantic_intent_protocol.Broker.Federation.{FederatedPeer, RemoteCapabilityResult}
use mathlib.Core.Option

-- What `_discover_remote` returns.
pub record RemoteAnswers (Score : Type 0) : Type 0 where
  pub results : List (RemoteCapabilityResult Score)
  pub queried : List String
  pub failed : List String

-- The texts of a list, if all its items are texts.
unfoldable pub texts_of : Items → Option (List String)
texts_of Items.end_items = some []
texts_of (Items.item (Value.str t) vs) = Option.map (λ ts. t ∷ ts) (texts_of vs)
texts_of (Items.item _ vs) = none

-- `item.get(key, [])`, as the model wants it: a list of texts.
unfoldable pub texts_field : String → Dict Value → Option (List String)
unfolding texts_of
texts_field key d = elim (lookup key d) [
  | none ↦ some []
  | some (Value.list vs) ↦ texts_of vs
  | some _ ↦ none
]

module _ {Score : Type 0} (scores : Scores Score) where
  -- `float(item.get("score", 0.0))`
  unfoldable pub score_field : Dict Value → Option Score
  score_field d = elim (lookup "score" d) [
    | none ↦ some (scores.from_halves 0)
    | some v ↦ scores.float_of v
  ]

  -- `RemoteCapabilityResult(...)`, where none of its arguments raises.
  unfoldable pub remote_result : FederatedPeer → Dict Value → Option (RemoteCapabilityResult Score)
  unfolding score_field texts_field
  remote_result p d = elim (score_field d) [
    | none ↦ none
    | some n ↦
        Option.map
          (λ path. record {
            source_broker_id = p.broker_id;
            source_broker_url = p.broker_url;
            peer_trust_level = p.trust_level;
            capability_data = d;
            score = n;
            discovery_path = p.broker_id ∷ path;
          })
          (texts_field "discovery_path" d)
  ]

  -- An item that is no dict has no `get`.
  unfoldable pub item_result : FederatedPeer → Value → Option (RemoteCapabilityResult Score)
  unfolding remote_result
  item_result p (Value.dict fs) = remote_result p (dict_of fs)
  item_result p _ = none

  abbrev pub add_item :
      Option (RemoteCapabilityResult Score)
      → List (RemoteCapabilityResult Score) × Bool
      → List (RemoteCapabilityResult Score) × Bool
  add_item none rest = ([], true)
  add_item (some x) rest = (x ∷ rest.0, rest.1)

  -- The loop over the items: what was collected before one raises stays, and the peer has failed.
  unfoldable pub collect : FederatedPeer → List Value → List (RemoteCapabilityResult Score) × Bool
  unfolding item_result
  collect p [] = ([], false)
  collect p (v ∷ vs) = add_item (item_result p v) (collect p vs)

  unfoldable pub answer_of :
      FederatedPeer → Option (List Value) → List (RemoteCapabilityResult Score) × Bool
  unfolding collect
  answer_of p none = ([], true)
  answer_of p (some vs) = collect p vs

  unfoldable pub add_answer :
      FederatedPeer
      → List (RemoteCapabilityResult Score) × Bool
      → RemoteAnswers Score
      → RemoteAnswers Score
  add_answer p (xs, fails) rest = record {
    results = xs ++ rest.results;
    queried = p.broker_id ∷ rest.queried;
    failed = if fails then p.broker_id ∷ rest.failed else rest.failed;
  }

  module _ (ask : FederatedPeer → Option (List Value)) (strict : Bool) where
    -- The loop over the peers. In strict mode the first peer that fails ends it.
    unfoldable pub ask_peers : List FederatedPeer → Result DiscoveryError (RemoteAnswers Score)
    unfolding answer_of add_answer
    ask_peers [] = ok (record { results = []; queried = []; failed = [] })
    ask_peers (p ∷ ps) =
        let got = answer_of p (ask p) in
        let others = ask_peers ps in
        if got.1 && strict
        then err (DiscoveryError.peer_unavailable p.broker_id)
        else (others >>= λ rest. ok (add_answer p got rest))
