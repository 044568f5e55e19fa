-- ===== src/Broker/Discovery/Failures.antt =====
-- When `discover` raises.
use mathlib.Core.Path.{sym, subst}
use semantic_intent_protocol.Base.{
  [], if◌then◌else◌, ◌++◌, map, In-sorted, sorted-In, sorted, if-true, String, In-append_right,
  In-append_left, In-append, ◌>>=◌, ap, ◌∙◌, if-false, ◌&&◌, Bool, In, ok, ◌↔◌, ◌≡◌, Value, Option,
  List, ◌∷◌, some, true, false, inl, inr, refl,
}
use semantic_intent_protocol.Base.Optional.{some-bind, bind-some}
use semantic_intent_protocol.Broker.Discovery.Bounds.{discover-ok}
use semantic_intent_protocol.Broker.Discovery.Candidates.{
  candidate_leb, cap_to_candidate, remote_leb, aggregate, candidates_of, remote_to_candidate,
}
use semantic_intent_protocol.Broker.Discovery.Local.{discover_local}
use semantic_intent_protocol.Broker.Discovery.Models.{
  DiscoveryResponse, DiscoveryRequest, DiscoveryCandidate, Scores,
}
use semantic_intent_protocol.Broker.Discovery.Remote.{
  answer_of, RemoteAnswers, add_answer, ask_peers,
}
use semantic_intent_protocol.Broker.Discovery.Service.{
  respond, broker_id_of, answer_or_raise, query_peers, discover,
}
use semantic_intent_protocol.Broker.Federation.{
  discovery_peers, FederationConfig, FederatedPeer, RemoteCapabilityResult,
}
use semantic_intent_protocol.Registry.Storage.{CapabilityStore}

module _ {Score : Type 0} (scores : Scores Score) where
  -- What the loop over the peers collects when it is not strict.
  record Collects (ask : FederatedPeer → Option (List Value)) (ps : List FederatedPeer)
      (answers : RemoteAnswers Score) : Type 0 where
    from_peer :
        (rr : RemoteCapabilityResult Score)
        → In rr answers.results
        → (p : FederatedPeer) × In p ps × In rr (answer_of scores p (ask p)).0
    from_answer :
        (rr : RemoteCapabilityResult Score) (p : FederatedPeer)
        → In p ps
        → In rr (answer_of scores p (ask p)).0
        → In rr answers.results

  ask_peers-Collects :
      (ask : FederatedPeer → Option (List Value)) (ps : List FederatedPeer)
      → (answers : RemoteAnswers Score) × (ask_peers scores ask false ps ≡ ok answers)
        × Collects ask ps answers
  unfolding ask_peers add_answer
  ask_peers-Collects ask [] = (
    record { results = []; queried = []; failed = [] },
    refl,
    record { from_peer = λ rr m. absurd m; from_answer = λ rr p m k. absurd m },
  )
  ask_peers-Collects ask (p ∷ ps) =
      let (rest, e, w) = ask_peers-Collects ask ps in
      let got = answer_of scores p (ask p) in
      (
        add_answer scores p got rest,
        if-false (got.1 && false) _ _ (and_false got.1)
            ∙ ap (λ o. o >>= λ x. ok (add_answer scores p got x)) e,
        record {
          from_peer = λ rr m. elim (In-append rr got.0 rest.results m) [
            | inl mine ↦ (p, inl refl, mine)
            | inr other ↦ let (q, l, k) = w.from_peer rr other in (q, inr l, k)
          ];
          from_answer = λ rr q l k. elim l [
            | inl same ↦
                In-append_left rr got.0 rest.results
                  (subst (λ x. In rr (answer_of scores x (ask x)).0) same k)
            | inr later ↦ In-append_right rr got.0 rest.results (w.from_answer rr q later k)
          ];
        },
      )
    where
      and_false : (b : Bool) → (b && false) ≡ false
      and_false true = refl
      and_false false = refl

  abbrev Converts : RemoteCapabilityResult Score → Type 0
  Converts rr = (c : DiscoveryCandidate Score) × (remote_to_candidate scores rr ≡ some c)

  candidates_of-Converts :
      (xs : List (RemoteCapabilityResult Score)) (cs : List (DiscoveryCandidate Score))
      → candidates_of scores xs ≡ some cs
      → (rr : RemoteCapabilityResult Score) → In rr xs
      → Converts rr
  unfolding candidates_of
  candidates_of-Converts [] cs h rr m = absurd m
  candidates_of-Converts (x ∷ xs) cs h rr m =
      let (d, e, h1) = some-bind (remote_to_candidate scores x) _ cs h in
      let (ds, k, h2) = some-bind (candidates_of scores xs) _ cs h1 in
      elim m [
        | inl same ↦ (d, ap (remote_to_candidate scores) same ∙ e)
        | inr later ↦ candidates_of-Converts xs ds k rr later
      ]

  Converts-candidates_of :
      (xs : List (RemoteCapabilityResult Score))
      → ((rr : RemoteCapabilityResult Score) → In rr xs → Converts rr)
      → (cs : List (DiscoveryCandidate Score)) × (candidates_of scores xs ≡ some cs)
  unfolding candidates_of
  Converts-candidates_of [] h = ([], refl)
  Converts-candidates_of (x ∷ xs) h =
      let (d, e) = h x (inl refl) in
      let (ds, k) = Converts-candidates_of xs (λ rr m. h rr (inr m)) in
      (
        d ∷ ds,
        bind-some (remote_to_candidate scores x) _ d (d ∷ ds) e
            (bind-some (candidates_of scores xs) _ ds (d ∷ ds) k refl),
      )

  -- In a federation that is not strict, a discovery that asks the peers gives a response exactly
  -- when each of the results that were collected from a peer's answer makes a candidate.
  pub discover-Converts :
      (ask : FederatedPeer → DiscoveryRequest → Option (List Value)) (lower : String → String)
      (s : CapabilityStore) (f : FederationConfig) (id : Option String) (r : DiscoveryRequest)
      → f.strict_mode ≡ false
      → r.include_remote ≡ true
      → ((resp : DiscoveryResponse Score) × (discover scores ask lower s (some f) id r ≡ ok resp))
        ↔ ((p : FederatedPeer) (rr : RemoteCapabilityResult Score)
            → In p (discovery_peers f)
            → In rr (answer_of scores p (ask p r)).0
            → (c : DiscoveryCandidate Score) × (remote_to_candidate scores rr ≡ some c))
  unfolding discover query_peers answer_or_raise aggregate
  discover-Converts ask lower s f id r lenient asks =
      let (answers, e, w) = ask_peers-Collects (λ p. ask p r) (discovery_peers f) in
      let asked : query_peers scores ask r (some f) ≡ ok answers =
        if-true r.include_remote _ _ asks
        ∙ (ap (λ b. ask_peers scores (λ p. ask p r) b (discovery_peers f)) lenient ∙ e) in
      (
        λ (resp, h) p rr l m.
            let (given, all, k, joined, same) =
              discover-ok scores ask lower s (some f) id r resp h in
            let equal : given ≡ answers = cc in
            let (ds, j, g) =
              some-bind (candidates_of scores (sorted (remote_leb scores) given.results)) _ all
                joined in
            candidates_of-Converts (sorted (remote_leb scores) given.results) ds j rr (
              sorted-In (remote_leb scores) rr given.results
                (subst (λ x. In rr x.results) (sym equal) (w.from_answer rr p l m))),
        λ h.
            let (ds, j) =
              Converts-candidates_of (sorted (remote_leb scores) answers.results) (λ rr m.
                let (p, l, k) =
                  w.from_peer rr (In-sorted (remote_leb scores) rr answers.results m) in
                h p rr l k) in
            let joined =
              map (cap_to_candidate scores (broker_id_of (some f) id)) (discover_local lower s r)
              ++ ds in
            (
              respond scores r.max_results answers
                  (if f.prefer_local then joined else sorted (candidate_leb scores) joined),
              rw asked (rw j refl),
            ),
      )
