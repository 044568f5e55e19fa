-- ===== src/Negotiation/Matcher/Selection.antt =====
-- What `match` selects: a candidate of the registry, the best of those ranked, with a binding that
-- it supports.
use semantic_intent_protocol.Base.{
  true_ne_false, inr, All-In, leb→le, ◌∙◌, ◌≤◌, IsSorted, sym, ℕ, Option-cases, map, ◌↔◌, String,
  contains→In, arith, In, List, [], ◌∷◌, none, some, true, false, inl, ◌≡◌, refl,
}
use semantic_intent_protocol.Envelope.Enums.{binding_eq, BindingType}
use semantic_intent_protocol.Envelope.Models.{
  CapabilityRequirement, ProtocolBinding, IntentEnvelope,
}
use semantic_intent_protocol.Negotiation.Matcher.{
  query_of, ranked_candidates_of, match, rank, first, requested_binding, required_binding, select,
  select_preferred_binding,
}
use semantic_intent_protocol.Negotiation.Results.{RankedCandidate}
use semantic_intent_protocol.Registry.Models.{CapabilityDescriptor}
use semantic_intent_protocol.Registry.Service.{scores_above, find_matches, Scored}
use semantic_intent_protocol.Registry.Service.Candidate.{IsCandidate}
use semantic_intent_protocol.Registry.Service.Ranking.{
  find_matches-IsCandidate, find_matches-IsSorted,
}
use semantic_intent_protocol.Registry.Storage.{list_all, CapabilityStore}

requested_binding-In :
    (pbs : List ProtocolBinding) (supported : List BindingType) (b : BindingType)
    → requested_binding pbs supported ≡ some b
    → In b supported
unfolding requested_binding
requested_binding-In [] supported b h = cc
requested_binding-In (pb ∷ pbs) supported b h =
    ground (arith, requested_binding-In pbs supported b, contains→In supported pb.binding_type)

required_binding-In :
    (rs : List CapabilityRequirement) (supported : List BindingType) (b : BindingType)
    → required_binding rs supported ≡ some b
    → In b supported
unfolding required_binding
required_binding-In [] supported b h = cc
required_binding-In (r ∷ rs) supported b h =
    ground (arith, required_binding-In rs supported b, contains→In supported b)

first-In : {A : Type 0} (xs : List A) (a : A) → first xs ≡ some a → In a xs
first-In [] a h = cc
first-In (x ∷ xs) a h = inl (ground arith)

-- A selected binding is one that the capability supports, and there is one unless it supports none.
pub select_preferred_binding-In : (e : IntentEnvelope) (c : CapabilityDescriptor) → record {
  supported : (b : BindingType) → select_preferred_binding e c ≡ some b → In b c.supported_bindings;
  present : select_preferred_binding e c ≡ none → c.supported_bindings ≡ [];
}
unfolding select_preferred_binding
select_preferred_binding-In e c = record {
  supported = λ b h. ground (
    arith,
    requested_binding-In e.protocol_bindings c.supported_bindings b,
    required_binding-In e.capability_requirements c.supported_bindings b,
    first-In c.supported_bindings b,
  );
  present = λ h. ground arith;
}

module _ (e : IntentEnvelope) where
  -- The selection takes the first of the ranked candidates, or none and then asks.
  select-first :
      (rs : List RankedCandidate) (c : CapabilityDescriptor)
      → (select e rs).chosen ≡ some c
      → (r : RankedCandidate) × (first rs ≡ some r)
        × (r.capability ≡ c)
        × ((select e rs).binding ≡ select_preferred_binding e c)
        × ((select e rs).clarify ≡ false)
  unfolding select
  select-first [] c h = absurd (ground arith)
  select-first (r ∷ []) c h = (r, refl, ground arith, ground arith, refl)
  select-first (r ∷ s ∷ rs) c h = (r, refl, ground arith, ground arith, ground arith)

  select-none :
      (rs : List RankedCandidate)
      → (select e rs).chosen ≡ none
      → ((select e rs).binding ≡ none) × ((select e rs).clarify ≡ true)
  unfolding select
  select-none [] h = (refl, refl)
  select-none (r ∷ []) h = absurd (ground arith)
  select-none (r ∷ s ∷ rs) h = ground arith

-- What `match` guarantees of a capability that it selects.
pub record IsSelection (lower : String → String) (s : CapabilityStore) (e : IntentEnvelope)
    (c : CapabilityDescriptor) : Type 0 where
  pub registered : In c (list_all s)
  pub candidate : IsCandidate lower (query_of e) c
  pub best :
      (n : ℕ) × In (c, n) (find_matches lower s (query_of e))
      × ((d : CapabilityDescriptor) (t : ℕ) → In (d, t) (find_matches lower s (query_of e)) → t ≤ n)
  pub binding : (match lower s e).selected_binding ≡ select_preferred_binding e c
  pub settled : (match lower s e).requires_clarification ≡ false

module _ (lower : String → String) (s : CapabilityStore) (e : IntentEnvelope) where
  first-rank :
      (ms : List Scored) (r : RankedCandidate)
      → first (map (rank lower e) ms) ≡ some r
      → IsSorted scores_above ms
      → In (r.capability, r.score) ms
        × ((d : CapabilityDescriptor) (t : ℕ) → In (d, t) ms → t ≤ r.score)
  unfolding rank
  first-rank [] r h o = absurd (ground arith)
  first-rank ((c, n) ∷ ms) r h (below, o) = (inl (ground arith), λ d t m. first_above d t m)
    where
      same : n ≡ r.score
      same = ground arith

      first_above : (d : CapabilityDescriptor) (t : ℕ) → In (d, t) ((c, n) ∷ ms) → t ≤ r.score
      first_above d t (inl e) = ground arith
      first_above d t (inr m) = rw (← same) (leb→le t n (All-In _ ms below (d, t) m))

  -- A selected capability is registered, is a candidate, has the highest score of all matches, and
  -- comes with the preferred binding.
  pub match-IsSelection :
      (c : CapabilityDescriptor)
      → (match lower s e).selected_capability ≡ some c
      → IsSelection lower s e c
  unfolding match ranked_candidates_of
  match-IsSelection c h =
      let (r, is_first, same, binding, settled) =
        select-first e (ranked_candidates_of lower s e) c h in
      let (m, top) =
        first-rank (find_matches lower s (query_of e)) r is_first
          (find_matches-IsSorted lower (query_of e) s) in
      let m' : In (c, r.score) (find_matches lower s (query_of e)) = rw (← same) m in
      let (registered, candidate, _, _) =
        find_matches-IsCandidate lower (query_of e) s c r.score m' in
      record {
        registered = registered;
        candidate = candidate;
        best = (r.score, m', top);
        binding = binding;
        settled = settled;
      }

  -- `match` asks for clarification exactly when it selects no capability.
  pub match_clarifies :
      ((match lower s e).requires_clarification ≡ true)
      ↔ ((match lower s e).selected_capability ≡ none)
  unfolding match
  match_clarifies =
      let ranked = ranked_candidates_of lower s e in
      (
        λ asks. elim (Option-cases (select e ranked).chosen) [
          | inl absent ↦ absent
          | inr (c, chosen) ↦
              let (r, is_first, same, binding, settled) = select-first e ranked c chosen in
              absurd (true_ne_false (sym asks ∙ settled))
        ],
        λ absent. (select-none e ranked absent).1,
      )
