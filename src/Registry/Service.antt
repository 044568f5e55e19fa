-- ===== src/Registry/Service.antt =====
-- `CapabilityRegistryService` (sip/registry/service.py). Its registration methods are those of the
-- store. A score is counted in halves of a point, so 3.0 is 6. `lower` is Python's `str.lower`.
pub mod Candidate
pub mod Ranking
use semantic_intent_protocol.Base.{
  [], some, ◌∷◌, none, ltb, is_some, string_eq, not, ◌||◌, any, contains_text, sorted, ◌==◌,
  contains, if◌then◌else◌, keep_if, map, slice_to, ℤ, leb, String, Bool, true, false, Option, List,
  Dict, ℕ, ◌+◌,
}
use semantic_intent_protocol.Envelope.Enums.{
  operation_eq, binding_eq, trust_order, BindingType, OperationClass, TrustLevel,
}
use semantic_intent_protocol.Registry.Models.{CapabilityDescriptor}
use semantic_intent_protocol.Registry.Storage.{list_all, CapabilityStore}

-- The arguments of `find_matches`.
pub record MatchQuery : Type 0 where
  pub intent_name : String
  pub intent_domain : String
  pub operation_class : OperationClass
  pub actor_trust : TrustLevel
  pub preferred_binding : Option BindingType
  pub candidate_ids : Option (List String)
  pub max_results : ℤ

abbrev pub Scored : Type 0
Scored = CapabilityDescriptor × ℕ

-- `required <= granted` on the levels' order.
abbrev pub trust_meets : TrustLevel → TrustLevel → Bool
trust_meets granted required = leb (trust_order required) (trust_order granted)

-- The sort key of `scored.sort(key=score, reverse=True)`.
abbrev pub scores_above : Scored → Scored → Bool
scores_above a b = leb b.1 a.1

abbrev pub supports : Option BindingType → CapabilityDescriptor → Bool
supports none c = false
supports (some b) c = contains c.supported_bindings b

-- `candidate_ids and capability_id in candidate_ids`
abbrev pub is_hinted : Option (List String) → CapabilityDescriptor → Bool
is_hinted none c = false
is_hinted (some ids) c = contains ids c.capability_id

abbrev points : Option ℕ → ℕ
points none = 0
points (some n) = n

-- Operation class, preferred binding and the caller's hint.
other_points : MatchQuery → CapabilityDescriptor → ℕ
other_points q c =
    (if c.operation_class == q.operation_class then 4 else 0)
    + (if supports q.preferred_binding c then 3 else 0)
    + (if is_hinted q.candidate_ids c then 1 else 0)

add_points : Bool → Option ℕ → Option ℕ → ℕ → Option ℕ
add_points trusted name domain others =
    let score = points name + points domain + others in
    if not trusted
    then none
    else if not (is_some name || is_some domain)
    then none
    else if ltb 0 score
    then some score
    else none

module _ (lower : String → String) where
  -- The points for the name: none without a match.
  name_points : MatchQuery → CapabilityDescriptor → Option ℕ
  name_points q c =
      if lower q.intent_name == lower c.capability_id
      then some 6
      else if contains_text (lower c.capability_id) (lower q.intent_name)
          || contains_text (lower c.name) (lower q.intent_name)
      then some 4
      else none

  domain_points : MatchQuery → CapabilityDescriptor → Option ℕ
  domain_points q c =
      let domains = map lower c.intent_domains in
      if contains domains (lower q.intent_domain)
      then some 4
      else if any (λ d. contains_text d (lower q.intent_domain)) domains
      then some 2
      else none

  -- One round of the loop: `none` where the source continues with the next capability.
  pub score_capability : MatchQuery → CapabilityDescriptor → Option ℕ
  unfolding add_points
  score_capability q c =
      add_points (trust_meets q.actor_trust c.minimum_trust_tier) (name_points q c)
        (domain_points q c) (other_points q c)

  score_all : MatchQuery → List CapabilityDescriptor → List Scored
  score_all q [] = []
  score_all q (c ∷ cs) =
      let rest = score_all q cs in
      elim (score_capability q c) [ none ↦ rest | some n ↦ (c, n) ∷ rest ]

  unfoldable pub find_matches : CapabilityStore → MatchQuery → List Scored
  unfolding score_all score_capability name_points domain_points other_points
  find_matches s q = slice_to q.max_results (sorted scores_above (score_all q (list_all s)))

  unfoldable pub search_by_name : String → CapabilityStore → List CapabilityDescriptor
  search_by_name query s =
      keep_if
        (λ c.
          contains_text (lower c.name) (lower query)
          || contains_text (lower c.capability_id) (lower query))
        (list_all s)

  unfoldable pub search_by_domain : String → CapabilityStore → List CapabilityDescriptor
  search_by_domain domain s =
      keep_if (λ c. any (λ d. contains_text (lower d) (lower domain)) c.intent_domains) (list_all s)

unfoldable pub filter_by_binding : BindingType → CapabilityStore → List CapabilityDescriptor
filter_by_binding b s = keep_if (λ c. contains c.supported_bindings b) (list_all s)

unfoldable pub filter_by_trust_tier : TrustLevel → CapabilityStore → List CapabilityDescriptor
filter_by_trust_tier t s = keep_if (λ c. trust_meets t c.minimum_trust_tier) (list_all s)
