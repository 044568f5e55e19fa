-- ===== src/Registry/Service/Ranking.antt =====
-- What `find_matches` returns: the best eligible capabilities, in descending order of score.
use semantic_intent_protocol.Base.{
  zero, leb→le, sorted-In, sorted, ◌≤◌, In-sorted, sorted-IsSorted, suc, some, true, pos, negsuc,
  inl, inr, All-In, ◌-◌, In-All, length, In-take, ◌⊎◌, take, IsSorted, slice_to, Bool, ℤ, In, arith,
  IsPreorder, String, ◌≡◌, List, [], ◌∷◌, ℕ,
}
use semantic_intent_protocol.Registry.Service.{
  list_all, CapabilityStore, find_matches, score_capability, CapabilityDescriptor, MatchQuery,
  score_all, scores_above,
}
use semantic_intent_protocol.Registry.Service.Candidate.{
  IsCandidate-score_capability, score_capability-IsCandidate, IsCandidate,
}

scores_above-IsPreorder : IsPreorder scores_above
scores_above-IsPreorder = record { total = λ a b. ground arith; trans = λ a b c h k. ground arith }

-- Of a sorted list an element that a cut drops is below each that the cut keeps.
take-IsSorted :
    {A : Type 0} (le : A → A → Bool) (n : ℕ) (xs : List A)
    → IsSorted le xs
    → (a b : A) → In a (take n xs)
    → In b xs
    → In b (take n xs) ⊎ (le a b ≡ true)
take-IsSorted le zero xs s a b m k = absurd m
take-IsSorted le (suc n) [] s a b m k = absurd m
take-IsSorted le (suc n) (x ∷ xs) s a b m (inl e) = inl (inl e)
take-IsSorted le (suc n) (x ∷ xs) (below, s) a b (inl e) (inr k) =
    inr (rw e (All-In _ xs below b k))
take-IsSorted le (suc n) (x ∷ xs) (below, s) a b (inr m) (inr k) =
    elim (take-IsSorted le n xs s a b m k) [ inl kept ↦ inl (inr kept) | inr h ↦ inr h ]

IsSorted-take :
    {A : Type 0} (le : A → A → Bool) (n : ℕ) (xs : List A)
    → IsSorted le xs
    → IsSorted le (take n xs)
IsSorted-take le zero xs s = tt
IsSorted-take le (suc n) [] s = tt
IsSorted-take le (suc n) (x ∷ xs) (below, s) =
    (In-All _ (take n xs) (λ a m. All-In _ xs below a (In-take a n xs m)), IsSorted-take le n xs s)

IsSorted-slice_to :
    {A : Type 0} (le : A → A → Bool) (n : ℤ) (xs : List A)
    → IsSorted le xs
    → IsSorted le (slice_to n xs)
IsSorted-slice_to le (pos n) xs s = IsSorted-take le n xs s
IsSorted-slice_to le (negsuc n) xs s = IsSorted-take le (length xs - suc n) xs s

In-slice_to : {A : Type 0} (a : A) (n : ℤ) (xs : List A) → In a (slice_to n xs) → In a xs
In-slice_to a (pos n) xs m = In-take a n xs m
In-slice_to a (negsuc n) xs m = In-take a (length xs - suc n) xs m

module _ (lower : String → String) (q : MatchQuery) where
  In-score_all :
      (cs : List CapabilityDescriptor) (c : CapabilityDescriptor) (n : ℕ)
      → In (c, n) (score_all lower q cs)
      → In c cs × (score_capability lower q c ≡ some n)
  unfolding score_all
  In-score_all [] c n m = absurd m
  In-score_all (d ∷ ds) c n m = ground (arith, In-score_all ds c n)

  score_all-In :
      (cs : List CapabilityDescriptor) (c : CapabilityDescriptor) (n : ℕ)
      → In c cs
      → score_capability lower q c ≡ some n
      → In (c, n) (score_all lower q cs)
  unfolding score_all
  score_all-In [] c n m e = absurd m
  score_all-In (d ∷ ds) c n m e = ground (arith, score_all-In ds c n)

  In-find_matches_scored :
      (s : CapabilityStore) (c : CapabilityDescriptor) (n : ℕ)
      → In (c, n) (find_matches lower s q)
      → In c (list_all s) × (score_capability lower q c ≡ some n)
  unfolding find_matches
  In-find_matches_scored s c n m =
      In-score_all (list_all s) c n
        (In-sorted scores_above (c, n) _ (In-slice_to (c, n) q.max_results _ m))

  -- The results stand in descending order of score.
  pub find_matches-IsSorted : (s : CapabilityStore) → IsSorted scores_above (find_matches lower s q)
  unfolding find_matches
  find_matches-IsSorted s =
      IsSorted-slice_to scores_above q.max_results _
        (sorted-IsSorted scores_above scores_above-IsPreorder (score_all lower q (list_all s)))

  -- A result is registered, open to the actor, and related to the intent by its name or its
  -- domain; its score lies between 1.0 and 9.0.
  pub find_matches-IsCandidate :
      (s : CapabilityStore) (c : CapabilityDescriptor) (n : ℕ)
      → In (c, n) (find_matches lower s q)
      → In c (list_all s) × IsCandidate lower q c × (2 ≤ n) × (n ≤ 18)
  find_matches-IsCandidate s c n m =
      let (k, e) = In-find_matches_scored s c n m in
      let (candidate, low, high) = score_capability-IsCandidate lower q c n e in
      (k, candidate, low, high)

  -- With a `max_results` that is not negative: beside any result, every registered candidate has a
  -- score, and stands among the results with it or scores no more than that result.
  pub find_matches_best :
      (s : CapabilityStore) (k : ℕ) (c d : CapabilityDescriptor) (n : ℕ)
      → q.max_results ≡ pos k
      → In (c, n) (find_matches lower s q)
      → In d (list_all s)
      → IsCandidate lower q d
      → (t : ℕ) × (score_capability lower q d ≡ some t)
        × (In (d, t) (find_matches lower s q) ⊎ (t ≤ n))
  unfolding find_matches
  find_matches_best s k c d n room m listed candidate =
      let (t, e) = IsCandidate-score_capability lower q d candidate in
      (
        t,
        e,
        elim (take-IsSorted scores_above k (sorted scores_above (score_all lower q (list_all s)))
            (sorted-IsSorted scores_above scores_above-IsPreorder (score_all lower q (list_all s)))
            (c, n) (d, t) (rw room at m)
            (sorted-In scores_above (d, t) _ (score_all-In (list_all s) d t listed e))) [
              | inl kept ↦ inl (rw room kept)
              | inr above ↦ inr (leb→le t n above)
            ],
      )
