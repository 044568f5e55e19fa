-- ===== src/Negotiation/Matcher/Clarification.antt =====
-- When `match` asks the caller to clarify an intent.
use semantic_intent_protocol.Base.{
  [], arith, sym, true_ne_false, ◌↔◌, map, ◌≡◌, ◌+◌, ◌<◌, List, Bool, String, ◌∷◌, none, true,
  false, refl,
}
use semantic_intent_protocol.Envelope.Models.{IntentEnvelope}
use semantic_intent_protocol.Negotiation.Matcher.{
  query_of, rank, ranked_candidates_of, select, match,
}
use semantic_intent_protocol.Negotiation.Matcher.Selection.{match_clarifies}
use semantic_intent_protocol.Registry.Service.{find_matches, Scored}
use semantic_intent_protocol.Registry.Storage.{CapabilityStore}

-- No match, or two that lie less than 1.0 (two halves) apart where the envelope does not allow to
-- fall back on the better one.
abbrev pub IsUnclear : Bool → List Scored → Type 0
IsUnclear fallback [] = Unit
IsUnclear fallback (a ∷ []) = ⊥
IsUnclear fallback (a ∷ b ∷ ms) = (a.1 < b.1 + 2) × (fallback ≡ false)

module _ (lower : String → String) (e : IntentEnvelope) where
  clarify-select :
      (ms : List Scored)
      → ((select e (map (rank lower e) ms)).clarify ≡ true)
        ↔ IsUnclear e.negotiation.allow_fallback ms
  unfolding select rank
  clarify-select [] = (λ h. tt, λ h. refl)
  clarify-select ((c, n) ∷ []) = (λ h. true_ne_false (sym h), λ h. absurd h)
  clarify-select ((c, n) ∷ (d, m) ∷ ms) =
      (λ h. (ground arith, ground arith), λ (near, alone). ground arith)

  -- `match` asks for clarification exactly when nothing matches, or when the best two matches lie
  -- less than 1.0 apart and the envelope does not allow a fallback; it then selects nothing.
  pub match-IsUnclear :
      (s : CapabilityStore)
      → (((match lower s e).requires_clarification ≡ true)
          ↔ IsUnclear e.negotiation.allow_fallback (find_matches lower s (query_of e)))
        × (((match lower s e).requires_clarification ≡ true)
            ↔ ((match lower s e).selected_capability ≡ none))
  unfolding match ranked_candidates_of
  match-IsUnclear s =
      (clarify-select (find_matches lower s (query_of e)), match_clarifies lower s e)
