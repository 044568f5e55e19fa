-- ===== src/Registry/Service/Candidate.antt =====
-- Which capabilities `find_matches` scores at all: the actor's trust suffices, and the intent's
-- name or domain occurs in the capability.
use semantic_intent_protocol.Base.{
  none, some, leb→le, le→leb, ◌+◌, Bool, Option, true, In→contains, string_eq, contains→In, eq_iff,
  ◌||◌, is_some, map, ◌≤◌, In, arith, ◌⊎◌, any, contains_text, String, ◌≡◌, refl, List, [], ◌∷◌, ℕ,
}
use semantic_intent_protocol.Registry.Service.{
  points, add_points, other_points, trust_meets, domain_points, name_points, score_capability,
  trust_order, CapabilityDescriptor, MatchQuery,
}

-- The text `part` occurs in one of the texts.
abbrev pub OccursIn : String → List String → Type 0
OccursIn part [] = ⊥
OccursIn part (d ∷ ds) = (contains_text d part ≡ true) ⊎ OccursIn part ds

module _ (lower : String → String) (q : MatchQuery) (c : CapabilityDescriptor) where
  abbrev pub HasSignal : Type 0
  HasSignal =
      (lower q.intent_name ≡ lower c.capability_id)
      ⊎ ((contains_text (lower c.capability_id) (lower q.intent_name) ≡ true)
          ⊎ ((contains_text (lower c.name) (lower q.intent_name) ≡ true)
              ⊎ (In (lower q.intent_domain) (map lower c.intent_domains)
                  ⊎ OccursIn (lower q.intent_domain) (map lower c.intent_domains))))

  pub record IsCandidate : Type 0 where
    pub trusted : trust_order c.minimum_trust_tier ≤ trust_order q.actor_trust
    pub signal : HasSignal

any→OccursIn :
    (part : String) (ds : List String)
    → any (λ d. contains_text d part) ds ≡ true
    → OccursIn part ds
any→OccursIn part [] h = cc
any→OccursIn part (d ∷ ds) h = ground (arith, any→OccursIn part ds)

OccursIn→any :
    (part : String) (ds : List String)
    → OccursIn part ds
    → any (λ d. contains_text d part) ds ≡ true
OccursIn→any part [] h = absurd h
OccursIn→any part (d ∷ ds) h = ground (arith, OccursIn→any part ds)

add_points-some :
    (trusted : Bool) (name domain : Option ℕ) (others n : ℕ)
    → add_points trusted name domain others ≡ some n
    → (trusted ≡ true)
      × ((is_some name || is_some domain) ≡ true)
      × (n ≡ points name + points domain + others)
unfolding add_points
add_points-some trusted name domain others n e = ground arith

module _ (lower : String → String) (q : MatchQuery) (c : CapabilityDescriptor) where
  name_points-signal :
      (n : ℕ) → name_points lower q c ≡ some n → HasSignal lower q c × (4 ≤ n) × (n ≤ 6)
  unfolding name_points
  name_points-signal n e = ground (arith, eq_iff (lower q.intent_name) (lower c.capability_id))

  domain_points-signal :
      (n : ℕ) → domain_points lower q c ≡ some n → HasSignal lower q c × (2 ≤ n) × (n ≤ 4)
  unfolding domain_points
  domain_points-signal n e = ground (
    arith,
    contains→In (map lower c.intent_domains) (lower q.intent_domain),
    any→OccursIn (lower q.intent_domain) (map lower c.intent_domains),
  )

  signal-points :
      HasSignal lower q c
      → (is_some (name_points lower q c) || is_some (domain_points lower q c)) ≡ true
  unfolding name_points domain_points
  signal-points h = ground (
    arith,
    eq_iff (lower q.intent_name) (lower c.capability_id),
    In→contains (map lower c.intent_domains) (lower q.intent_domain),
    OccursIn→any (lower q.intent_domain) (map lower c.intent_domains),
  )

  points-signal :
      (n d : Option ℕ)
      → name_points lower q c ≡ n
      → domain_points lower q c ≡ d
      → (is_some n || is_some d) ≡ true
      → HasSignal lower q c × (2 ≤ points n + points d) × (points n + points d ≤ 10)
  points-signal none none e f h = cc
  points-signal none (some d) e f h =
      let (s, low, high) = domain_points-signal d f in (s, omega arith, omega arith)
  points-signal (some n) none e f h =
      let (s, low, high) = name_points-signal n e in (s, omega arith, omega arith)
  points-signal (some n) (some d) e f h =
      let (s, low, high) = name_points-signal n e in
      let (_, least, most) = domain_points-signal d f in (s, omega arith, omega arith)

  other_points-le : other_points q c ≤ 8
  unfolding other_points
  other_points-le = ground arith

  -- A score is given to candidates only, and lies between 1.0 and 9.0.
  pub score_capability-IsCandidate :
      (n : ℕ) → score_capability lower q c ≡ some n → IsCandidate lower q c × (2 ≤ n) × (n ≤ 18)
  unfolding score_capability
  score_capability-IsCandidate n e =
      let (trusted, signal, total) = score_capability-some n e in
      let (s, low, high) = points-signal _ _ refl refl signal in
      (
        record { trusted = leb→le _ _ trusted; signal = s },
        omega (arith, other_points-le),
        omega (arith, other_points-le),
      )
    where
      score_capability-some :
          (n : ℕ)
          → score_capability lower q c ≡ some n
          → (trust_meets q.actor_trust c.minimum_trust_tier ≡ true)
            × ((is_some (name_points lower q c) || is_some (domain_points lower q c)) ≡ true)
            × (n
                ≡ points (name_points lower q c)
                  + points (domain_points lower q c)
                  + other_points q c)
      score_capability-some n e = add_points-some _ _ _ _ n e

  -- Every candidate is given a score: a capability whose tier the actor's trust reaches, and whose
  -- id, name or domain the intent names.
  pub IsCandidate-score_capability :
      IsCandidate lower q c → (n : ℕ) × (score_capability lower q c ≡ some n)
  unfolding score_capability
  IsCandidate-score_capability h =
      let signal = signal-points h.signal in
      let (s, low, high) = points-signal _ _ refl refl signal in
      (
        points (name_points lower q c) + points (domain_points lower q c) + other_points q c,
        rw (le→leb _ _ h.trusted, signal) (ground arith),
      )
