-- ===== src/Broker/Discovery/Sources.antt =====
-- Which peer a remote result comes from.
use mathlib.Core.Option.{map}
use mathlib.Core.Path.{sym, subst}
use semantic_intent_protocol.Base.{
  [], refl, In-append, if-true, ◌∙◌, if-false, ok-bind, ◌&&◌, Bool-cases, ok, Dict, In, dict_of,
  ◌≡◌, ◌∷◌, none, some, inl, inr, Bool, String, List, Option, Value,
}
use semantic_intent_protocol.Broker.Discovery.Models.{DiscoveryRequest, Scores}
use semantic_intent_protocol.Broker.Discovery.Remote.{
  add_item, score_field, RemoteAnswers, texts_field, add_answer, answer_of, ask_peers, collect,
  item_result, remote_result,
}
use semantic_intent_protocol.Broker.Discovery.Service.{no_answers, query_peers}
use semantic_intent_protocol.Broker.Federation.{
  discovery_peers, FederationConfig, RemoteCapabilityResult, FederatedPeer,
}
use mathlib.Core.Option

-- A peer's result carries the peer's id and trust, and its path begins with the peer.
pub record IsFrom {Score : Type 0} (p : FederatedPeer) (rr : RemoteCapabilityResult Score)
    : Type 0 where
  pub source : rr.source_broker_id ≡ p.broker_id
  pub trust : rr.peer_trust_level ≡ p.trust_level
  pub path : (rest : List String) × (rr.discovery_path ≡ (p.broker_id ∷ rest))

pub map-some :
    {A B : Type 0} (f : A → B) (o : Option A) (b : B)
    → Option.map f o ≡ some b
    → (a : A) × (o ≡ some a) × (f a ≡ b)
map-some f none b h = cc
map-some f (some a) b h = (a, refl, cc)

module _ {Score : Type 0} (scores : Scores Score) where
  remote_result-IsFrom :
      (p : FederatedPeer) (d : Dict Value) (rr : RemoteCapabilityResult Score)
      → remote_result scores p d ≡ some rr
      → IsFrom p rr
  unfolding remote_result
  remote_result-IsFrom p d rr h = by_score (score_field scores d) h
    where
      by_score :
          (o : Option Score)
          → elim o [
            | none ↦ none
            | some n ↦
                Option.map
                  (λ path. record {
                    source_broker_id = p.broker_id;
                    source_broker_url = p.broker_url;
                    peer_trust_level = p.trust_level;
                    capability_data = d;
                    score = n;
                    discovery_path = p.broker_id ∷ path;
                  })
                  (texts_field "discovery_path" d)
          ]
            ≡ some rr
          → IsFrom p rr
      by_score none k = cc
      by_score (some n) k =
          let (path, e, same) = map-some _ (texts_field "discovery_path" d) rr k in
          subst (IsFrom p) same (record { source = refl; trust = refl; path = (path, refl) })

  item_result-IsFrom :
      (p : FederatedPeer) (v : Value) (rr : RemoteCapabilityResult Score)
      → item_result scores p v ≡ some rr
      → IsFrom p rr
  unfolding item_result
  item_result-IsFrom p (Value.dict fs) rr h = remote_result-IsFrom p (dict_of fs) rr h
  item_result-IsFrom p Value.null rr h = cc
  item_result-IsFrom p (Value.bool b) rr h = cc
  item_result-IsFrom p (Value.int n) rr h = cc
  item_result-IsFrom p (Value.float x) rr h = cc
  item_result-IsFrom p (Value.str t) rr h = cc
  item_result-IsFrom p (Value.list vs) rr h = cc

  collect-IsFrom :
      (p : FederatedPeer) (vs : List Value) (rr : RemoteCapabilityResult Score)
      → In rr (collect scores p vs).0
      → IsFrom p rr
  unfolding collect
  collect-IsFrom p [] rr m = absurd m
  collect-IsFrom p (v ∷ vs) rr m = by_item (item_result scores p v) (collect-IsFrom p vs rr) refl m
    where
      by_item :
          (o : Option (RemoteCapabilityResult Score))
          → (In rr (collect scores p vs).0 → IsFrom p rr)
          → item_result scores p v ≡ o
          → In rr (add_item scores o (collect scores p vs)).0
          → IsFrom p rr
      by_item none later e k = absurd k
      by_item (some x) later e (inl same) = subst (IsFrom p) (sym same) (item_result-IsFrom p v x e)
      by_item (some x) later e (inr k) = later k

  answer_of-IsFrom :
      (p : FederatedPeer) (o : Option (List Value)) (rr : RemoteCapabilityResult Score)
      → In rr (answer_of scores p o).0
      → IsFrom p rr
  unfolding answer_of
  answer_of-IsFrom p none rr m = absurd m
  answer_of-IsFrom p (some vs) rr m = collect-IsFrom p vs rr m

  ask_peers-IsFrom :
      (ask : FederatedPeer → Option (List Value)) (strict : Bool) (ps : List FederatedPeer)
      (answers : RemoteAnswers Score) (rr : RemoteCapabilityResult Score)
      → ask_peers scores ask strict ps ≡ ok answers
      → In rr answers.results
      → (p : FederatedPeer) × In p ps × IsFrom p rr
  unfolding ask_peers add_answer
  ask_peers-IsFrom ask strict [] answers rr h m =
      let same : record { results = []; queried = []; failed = [] } ≡ answers = cc in
      absurd (subst (λ x. In rr x.results) (sym same) m)
  ask_peers-IsFrom ask strict (p ∷ ps) answers rr h m =
      elim (Bool-cases ((answer_of scores p (ask p)).1 && strict)) [
        | inl stops ↦
            let raised = sym (if-true ((answer_of scores p (ask p)).1 && strict) _ _ stops) ∙ h in
            cc
        | inr goes ↦
            let (rest, k, e) =
              ok-bind (ask_peers scores ask strict ps) _ answers
                (sym (if-false ((answer_of scores p (ask p)).1 && strict) _ _ goes) ∙ h) in
            let same : add_answer scores p (answer_of scores p (ask p)) rest ≡ answers = cc in
            elim (In-append rr (answer_of scores p (ask p)).0 rest.results
              (subst (λ x. In rr x.results) (sym same) m)) [
                | inl own ↦ (p, inl refl, answer_of-IsFrom p (ask p) rr own)
                | inr others ↦
                    let (q, l, from) = ask_peers-IsFrom ask strict ps rest rr k others in
                    (q, inr l, from)
              ]
      ]

  pub query_peers-IsFrom :
      (ask : FederatedPeer → DiscoveryRequest → Option (List Value)) (r : DiscoveryRequest)
      (federation : Option FederationConfig) (answers : RemoteAnswers Score)
      (rr : RemoteCapabilityResult Score)
      → query_peers scores ask r federation ≡ ok answers
      → In rr answers.results
      → (f : FederationConfig) × (p : FederatedPeer) × (federation ≡ some f)
        × In p (discovery_peers f)
        × IsFrom p rr
  unfolding query_peers
  query_peers-IsFrom ask r none answers rr h m =
      let same : no_answers scores ≡ answers = cc in
      absurd (subst (λ x. In rr x.results) (sym same) m)
  query_peers-IsFrom ask r (some f) answers rr h m = elim (Bool-cases r.include_remote) [
    | inl asks ↦
        let (p, l, from) =
          ask_peers-IsFrom (λ p. ask p r) f.strict_mode (discovery_peers f) answers rr
            (sym (if-true r.include_remote _ _ asks) ∙ h) m in
        (f, p, refl, l, from)
    | inr silent ↦
        let k = sym (if-false r.include_remote _ _ silent) ∙ h in
        let same : no_answers scores ≡ answers = cc in
        absurd (subst (λ x. In rr x.results) (sym same) m)
  ]
