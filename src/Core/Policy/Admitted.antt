-- ===== src/Core/Policy/Admitted.antt =====
-- Which capabilities `_evaluate_internal` allows, and which approvals it asks for.
use mathlib.Core.Path.{ap, sym, subst}
use semantic_intent_protocol.Base.{
  [], refl, le→ltb-false, if-false, ltb-false→le, ltb, if-true, true_ne_false, Bool-cases, ◌⊎◌, ◌∙◌,
  ◌∷◌, inl, inr, not, ◌≤◌, arith, is_empty, length, ◌↔◌, In, ◌≡◌, List, ◌&&◌, Bool, false,
}
use semantic_intent_protocol.Core.Intent.{NormalizedIntent}
use semantic_intent_protocol.Core.Policy.{
  Survey, conclude, evaluate_internal, lacks_originator, survey, CanonicalSettings,
}
use semantic_intent_protocol.Core.Policy.Candidates.{
  IsAdmitted, approval_names, approvals-survey, In-survey,
}
use semantic_intent_protocol.Policy.Interface.{
  PolicyReason, ReasonCode, PolicyResult, CanonicalNote, chain_too_long, deny_result,
  provenance_missing, candidates_to_evaluate,
}
use semantic_intent_protocol.Registry.Models.{CapabilityDescriptor}

-- The checks before the candidates are looked at.
pub record IsCleared (w : CanonicalSettings) (i : NormalizedIntent) : Type 0 where
  pub originator : (w.require_provenance && lacks_originator i) ≡ false
  pub depth : length i.actor.delegation_chain ≤ 5

allowed_capabilities-conclude :
    (notes : List CanonicalNote) (s : Survey) → (conclude notes s).allowed_capabilities ≡ s.admitted
unfolding conclude
allowed_capabilities-conclude notes s = ground arith

required_approvals-conclude :
    (enforce : Bool) (notes : List CanonicalNote) (s : Survey)
    → s.approvals ≡ approval_names enforce s.admitted
    → (conclude notes s).required_approvals
      ≡ approval_names enforce (conclude notes s).allowed_capabilities
unfolding conclude
required_approvals-conclude enforce notes s h = ground arith

allowed-conclude :
    (notes : List CanonicalNote) (s : Survey)
    → (conclude notes s).allowed ≡ not (is_empty (conclude notes s).allowed_capabilities)
unfolding conclude
allowed-conclude notes s = ground arith

abbrev opening_notes : NormalizedIntent → List CapabilityDescriptor → List CanonicalNote
opening_notes i cs =
    CanonicalNote.actor_trust i.actor.actor_id i.actor.trust_level
    ∷ candidates_to_evaluate (length cs)
    ∷ []

-- A result of the two checks before the candidates allows nothing.
record IsRefusal (r : PolicyResult) : Type 0 where
  allowed : r.allowed ≡ false
  capabilities : r.allowed_capabilities ≡ []
  approvals : r.required_approvals ≡ []

refusal :
    (code : ReasonCode) (why : PolicyReason) (notes : List CanonicalNote)
    → IsRefusal (deny_result code why notes)
refusal code why notes = record { allowed = refl; capabilities = refl; approvals = refl }

module _ (w : CanonicalSettings) (i : NormalizedIntent) (cs : List CapabilityDescriptor) where
  evaluate_internal-cases :
      (IsCleared w i
        × (evaluate_internal w i cs
            ≡ conclude (opening_notes i cs) (survey w.enforce_approval i cs)))
      ⊎ ((IsCleared w i → ⊥) × IsRefusal (evaluate_internal w i cs))
  unfolding evaluate_internal
  evaluate_internal-cases = elim (Bool-cases (w.require_provenance && lacks_originator i)) [
    | inl h ↦ inr (
      λ k. absurd (true_ne_false (sym h ∙ k.originator)),
      subst IsRefusal (sym (if-true (w.require_provenance && lacks_originator i) _ _ h)) (
          refusal ReasonCode.missing_provenance PolicyReason.originator_missing
            (provenance_missing ∷ [])),
    )
    | inr h ↦ elim (Bool-cases (ltb 5 (length i.actor.delegation_chain))) [
      | inl k ↦ inr (
        λ g. absurd (true_ne_false (sym k ∙ le→ltb-false 5 _ g.depth)),
        subst IsRefusal
            (sym (
              if-false (w.require_provenance && lacks_originator i) _ _ h
              ∙ if-true (ltb 5 (length i.actor.delegation_chain)) _ _ k))
            (refusal ReasonCode.delegation_chain_too_long
              (PolicyReason.chain_exceeds (length i.actor.delegation_chain))
              (chain_too_long (length i.actor.delegation_chain) ∷ [])),
      )
      | inr k ↦ inl (
        record { originator = h; depth = ltb-false→le 5 _ k },
        if-false (w.require_provenance && lacks_originator i) _ _ h
            ∙ if-false (ltb 5 (length i.actor.delegation_chain)) _ _ k,
      )
    ]
  ]

  -- The engine allows exactly those of the candidates that the actor's scopes and trust reach and
  -- that critical risk on restricted data does not rule out, and none at all if a required
  -- originator is missing or the delegation chain has more than 5 members.
  pub evaluate_internal-IsAdmitted :
      (c : CapabilityDescriptor)
      → In c (evaluate_internal w i cs).allowed_capabilities
        ↔ (IsCleared w i × In c cs × IsAdmitted i c)
  evaluate_internal-IsAdmitted c = elim evaluate_internal-cases [
    | inl (cleared, same) ↦
        let s = survey w.enforce_approval i cs in
        let (to, from) = In-survey w.enforce_approval i c cs in
        let capabilities =
          ap (λ r. r.allowed_capabilities) same
          ∙ allowed_capabilities-conclude (opening_notes i cs) s in
        (
          λ m.
              let (listed, admitted) = to (subst (In c) capabilities m) in
              (cleared, listed, admitted),
          λ (g, m, a). subst (In c) (sym capabilities) (from (m, a)),
        )
    | inr (stopped, refused) ↦
        (λ m. absurd (subst (In c) refused.capabilities m), λ (g, m, a). absurd (stopped g))
  ]

  -- The engine allows an intent exactly when it allows a capability, and asks for one approval, by
  -- name and in the candidates' order, for each allowed capability that the enforced risk table or
  -- the capability itself makes wait.
  pub evaluate_internal-approvals :
      ((evaluate_internal w i cs).allowed
        ≡ not (is_empty (evaluate_internal w i cs).allowed_capabilities))
      × ((evaluate_internal w i cs).required_approvals
          ≡ approval_names w.enforce_approval (evaluate_internal w i cs).allowed_capabilities)
  evaluate_internal-approvals = elim evaluate_internal-cases [
    | inl (cleared, same) ↦
        let s = survey w.enforce_approval i cs in
        subst
          (λ r.
            (r.allowed ≡ not (is_empty r.allowed_capabilities))
            × (r.required_approvals ≡ approval_names w.enforce_approval r.allowed_capabilities))
          (sym same)
          (
            allowed-conclude (opening_notes i cs) s,
            required_approvals-conclude w.enforce_approval (opening_notes i cs) s
                (approvals-survey w.enforce_approval i cs),
          )
    | inr (stopped, refused) ↦ (
      refused.allowed ∙ ap (λ l. not (is_empty l)) (sym refused.capabilities),
      refused.approvals ∙ ap (approval_names w.enforce_approval) (sym refused.capabilities),
    )
  ]
