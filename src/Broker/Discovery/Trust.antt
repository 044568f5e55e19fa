-- ===== src/Broker/Discovery/Trust.antt =====
-- Which of its own capabilities a broker offers in a discovery.
use mathlib.Core.Path.{ap, sym, subst}
use semantic_intent_protocol.Base.{
  [], refl, sorted, arith, ok, take, true_ne_false, ◌∙◌, Value, ◌↔◌, is_blank, map, ◌++◌, if-false,
  if-true, In-map_inv, lookup, Bool-cases, In-take, string_eq, ◌==◌, In-sorted, if◌then◌else◌, ◌≤◌,
  Bool, ◌⊎◌, Option, ℕ, ◌≡◌, List, values, In, Dict, String, insert, ◌∷◌, none, some, true, false,
  inl, inr,
}
use semantic_intent_protocol.Broker.Discovery.Candidates.{
  candidates_of, aggregate, cap_to_candidate,
}
use semantic_intent_protocol.Broker.Discovery.Local.{
  text_or, improves, query_for, has_no_signal, best_of, discover_local, keep_best, match_local,
}
use semantic_intent_protocol.Broker.Discovery.Models.{
  DiscoveryCandidate, DiscoveryResponse, Scores, DiscoveryRequest,
}
use semantic_intent_protocol.Broker.Discovery.Service.{
  no_answers, respond, answer_or_raise, query_peers, discover,
}
use semantic_intent_protocol.Broker.Federation.{FederatedPeer}
use semantic_intent_protocol.Envelope.Enums.{operation_classes, trust_order, OperationClass}
use semantic_intent_protocol.Registry.Models.{CapabilityDescriptor}
use semantic_intent_protocol.Registry.Service.{scores_above, find_matches, Scored}
use semantic_intent_protocol.Registry.Service.Ranking.{find_matches-IsCandidate}
use semantic_intent_protocol.Registry.Storage.{list_all, CapabilityStore}

In-values-insert :
    {V : Type 0} (k : String) (v w : V) (d : Dict V)
    → In w (values (insert k v d))
    → (w ≡ v) ⊎ In w (values d)
unfolding insert
In-values-insert k v w [] (inl e) = inl e
In-values-insert k v w [] (inr m) = absurd m
In-values-insert k v w ((j, x) ∷ d) m = by_key (j == k) (In-values-insert k v w d) m
  where
    by_key :
        (b : Bool)
        → (In w (values (insert k v d)) → (w ≡ v) ⊎ In w (values d))
        → In w (values (if b then (j, v) ∷ d else (j, x) ∷ insert k v d))
        → (w ≡ v) ⊎ In w (values ((j, x) ∷ d))
    by_key true later (inl e) = inl e
    by_key true later (inr l) = inr (inr l)
    by_key false later (inl e) = inr (inl e)
    by_key false later (inr l) = elim (later l) [ inl e ↦ inl e | inr n ↦ inr (inr n) ]

module _ (lower : String → String) (s : CapabilityStore) (r : DiscoveryRequest) where
  -- A registered capability that the requester's trust reaches.
  abbrev pub IsReached : CapabilityDescriptor → Type 0
  IsReached c = In c (list_all s) × (trust_order c.minimum_trust_tier ≤ trust_order r.trust_level)

  find_matches-IsReached :
      (oc : OperationClass) (x : Scored)
      → In x (find_matches lower s (query_for r oc))
      → IsReached x.0
  find_matches-IsReached oc (c, n) m =
      let (listed, candidate, low, high) =
        find_matches-IsCandidate lower (query_for r oc) s c n m in
      (listed, candidate.trusted)

  abbrev AreReached : List Scored → Type 0
  AreReached xs = (x : Scored) → In x xs → IsReached x.0

  keep_best-AreReached :
      (ms : List Scored) (best : Dict Scored)
      → AreReached ms
      → AreReached (values best)
      → AreReached (values (keep_best ms best))
  unfolding keep_best
  keep_best-AreReached [] best h k = k
  keep_best-AreReached ((c, n) ∷ ms) best h k =
      keep_best-AreReached ms _ (λ x m. h x (inr m))
        (kept (improves n (lookup c.capability_id best)))
    where
      kept :
          (b : Bool) → AreReached (values (if b then insert c.capability_id (c, n) best else best))
      kept true x m = elim (In-values-insert c.capability_id (c, n) x best m) [
        | inl e ↦ h x (inl e)
        | inr l ↦ k x l
      ]
      kept false x m = k x m

  best_of-AreReached :
      (ocs : List OperationClass) (best : Dict Scored)
      → AreReached (values best)
      → AreReached (values (best_of lower s r ocs best))
  unfolding best_of
  best_of-AreReached [] best k = k
  best_of-AreReached (oc ∷ ocs) best k = best_of-AreReached ocs _ (
      keep_best-AreReached (find_matches lower s (query_for r oc)) best
        (λ x m. find_matches-IsReached oc x m) k)

  match_local-AreReached : (oc : Option OperationClass) → AreReached (match_local lower s r oc)
  unfolding match_local
  match_local-AreReached (some oc) x m = find_matches-IsReached oc x m
  match_local-AreReached none x m =
      best_of-AreReached operation_classes [] (λ y l. absurd l) x
        (In-sorted scores_above x _ (In-take x _ _ m))

  -- What a broker offers of its own to a request that names an intent or a domain.
  match_local-chosen : has_no_signal lower s r ≡ false → AreReached (discover_local lower s r)
  unfolding discover_local
  match_local-chosen h x m =
      match_local-AreReached r.operation_class x
        (subst (In x) (if-false (has_no_signal lower s r) _ _ h) m)

  discover_local-unnamed :
      has_no_signal lower s r ≡ true → discover_local lower s r ≡ map (λ c. (c, 0)) (list_all s)
  unfolding discover_local
  discover_local-unnamed h = if-true (has_no_signal lower s r) _ _ h

-- A field of a request that is not given, or empty.
abbrev pub IsMissing : Option String → Type 0
IsMissing none = Unit
IsMissing (some t) = is_blank t ≡ true

text_or-IsMissing : (o : Option String) → (is_blank (text_or "" o) ≡ true) ↔ IsMissing o
text_or-IsMissing none = (λ h. tt, λ h. refl)
text_or-IsMissing (some t) = elim (Bool-cases (is_blank t)) [
  | inl h ↦ (λ k. h, λ k. ap is_blank (if-true (is_blank t) _ _ h))
  | inr h ↦ (
    λ k. sym (ap is_blank (if-false (is_blank t) _ _ h)) ∙ k,
    λ k. absurd (true_ne_false (sym k ∙ h)),
  )
]

append_nil : {A : Type 0} (xs : List A) → xs ++ [] ≡ xs
append_nil [] = refl
append_nil (x ∷ xs) = ap (λ l. x ∷ l) (append_nil xs)

map-map :
    {A B C : Type 0} (f : B → C) (g : A → B) (xs : List A)
    → map f (map g xs) ≡ map (λ a. f (g a)) xs
map-map f g [] = refl
map-map f g (x ∷ xs) = ap (λ l. f (g x) ∷ l) (map-map f g xs)

module _ {Score : Type 0} (scores : Scores Score)
    (ask : FederatedPeer → DiscoveryRequest → Option (List Value)) (lower : String → String)
    (s : CapabilityStore) (id : Option String) (r : DiscoveryRequest) where
  -- The two kinds of answer of a broker without a federation: the first capabilities of the
  -- registry, whatever trust they ask for, to a request with neither intent nor domain, and else
  -- what the requester's trust reaches.
  abbrev pub IsOffered : List (DiscoveryCandidate Score) → Type 0
  IsOffered candidates =
      ((IsMissing r.intent_name × IsMissing r.intent_domain)
        × (candidates
            ≡ take r.max_results (map (λ c. cap_to_candidate scores id (c, 0)) (list_all s))))
      ⊎ (((IsMissing r.intent_name × IsMissing r.intent_domain) → ⊥)
          × ((x : DiscoveryCandidate Score)
              → In x candidates
              → (c : CapabilityDescriptor) × (n : ℕ) × (x ≡ cap_to_candidate scores id (c, n))
                × IsReached lower s r c))

  response_candidates :
      (resp : DiscoveryResponse Score)
      → discover scores ask lower s none id r ≡ ok resp
      → resp.candidates
        ≡ take r.max_results (map (cap_to_candidate scores id) (discover_local lower s r))
  unfolding discover query_peers aggregate candidates_of answer_or_raise respond sorted
  response_candidates resp h =
      let locals = map (cap_to_candidate scores id) (discover_local lower s r) in
      let same : respond scores r.max_results (no_answers scores) (locals ++ []) ≡ resp = cc in
      sym (ap (λ x. x.candidates) same) ∙ ap (take r.max_results) (append_nil locals)

  -- A broker without a federation answers a request that names neither an intent nor a domain with
  -- the first capabilities of its registry, as many as the request takes and whatever trust they ask
  -- for. Any other request is offered only registered capabilities that the requester's trust
  -- reaches.
  pub discover-IsOffered :
      (resp : DiscoveryResponse Score)
      → discover scores ask lower s none id r ≡ ok resp
      → IsOffered resp.candidates
  discover-IsOffered resp h =
      let (intent, no_intent) = text_or-IsMissing r.intent_name in
      let (domain, no_domain) = text_or-IsMissing r.intent_domain in
      elim (Bool-cases (has_no_signal lower s r)) [
        | inl k ↦ inl (
          (intent (ground (arith, k)), domain (ground (arith, k))),
          response_candidates resp h
              ∙ ap (λ l. take r.max_results (map (cap_to_candidate scores id) l))
                  (discover_local-unnamed lower s r k)
              ∙ ap (take r.max_results)
                  (map-map (cap_to_candidate scores id) (λ c. (c, 0)) (list_all s)),
        )
        | inr k ↦ inr (
          λ (i, d). absurd (true_ne_false (ground (arith, k, no_intent i, no_domain d))),
          λ x m.
              let ((c, n), l, e) =
                In-map_inv (cap_to_candidate scores id) x (discover_local lower s r)
                  (In-take x r.max_results _ (subst (In x) (response_candidates resp h) m)) in
              (c, n, e, match_local-chosen lower s r k (c, n) l),
        )
      ]
