-- ===== src/Core/Policy/Candidates.antt =====
-- Which candidates pass the loop of `_evaluate_internal`, and which approvals they ask for.
use mathlib.Core.Path.{ap, sym, subst}
use semantic_intent_protocol.Base.{
  [], refl, keep_if-In, In-keep_if, if◌then◌else◌, ◌∙◌, ◌∷◌, not, leb, ◌≤◌, arith, is_empty,
  keep_if, ◌||◌, ◌↔◌, In, map, ◌≡◌, List, String, ◌&&◌, Bool, true, false,
}
use semantic_intent_protocol.Core.Intent.{NormalizedIntent}
use semantic_intent_protocol.Core.Policy.{
  Survey, CapabilityVerdict, approval_name, add_verdict, survey, evaluate_capability,
}
use semantic_intent_protocol.Envelope.Enums.{DataSensitivity, trust_order}
use semantic_intent_protocol.Envelope.Validator.Accepted.{IsSubset}
use semantic_intent_protocol.Policy.Engine.Permitted.{denied_by_risk_iff}
use semantic_intent_protocol.Policy.Rules.{
  is_denied_by_risk, check_scopes, check_scopes-empty, in_approval_combinations, requires_approval,
}
use semantic_intent_protocol.Registry.Models.{RiskLevel, CapabilityDescriptor}

-- What a capability has to satisfy for the normalized intent.
pub record IsAdmitted (i : NormalizedIntent) (c : CapabilityDescriptor) : Type 0 where
  pub scopes : IsSubset c.required_scopes i.actor.scopes
  pub trust : trust_order c.minimum_trust_tier ≤ trust_order i.actor.trust_level
  pub risk :
      (c.risk_level ≡ RiskLevel.critical)
      → (i.constraints.data_sensitivity ≡ DataSensitivity.restricted)
      → ⊥

abbrev pub needs_approval : Bool → CapabilityDescriptor → Bool
needs_approval enforce c =
    (enforce && in_approval_combinations c.risk_level c.operation_class)
    || c.constraints.requires_human_approval

allowed-evaluate_capability :
    (enforce : Bool) (i : NormalizedIntent) (c : CapabilityDescriptor)
    → (evaluate_capability enforce i c).allowed ≡ (
        is_empty (check_scopes c.required_scopes i.actor.scopes)
        && (leb (trust_order c.minimum_trust_tier) (trust_order i.actor.trust_level)
            && not (is_denied_by_risk c.risk_level i.constraints.data_sensitivity)))
unfolding evaluate_capability
allowed-evaluate_capability enforce i c = ground arith

approval-evaluate_capability :
    (enforce : Bool) (i : NormalizedIntent) (c : CapabilityDescriptor)
    → (evaluate_capability enforce i c).allowed ≡ true
    → (evaluate_capability enforce i c).approval ≡ needs_approval enforce c
unfolding evaluate_capability requires_approval
approval-evaluate_capability enforce i c h = ground arith

evaluate_capability-IsAdmitted :
    (enforce : Bool) (i : NormalizedIntent) (c : CapabilityDescriptor)
    → ((evaluate_capability enforce i c).allowed ≡ true) ↔ IsAdmitted i c
evaluate_capability-IsAdmitted enforce i c =
    let tests = allowed-evaluate_capability enforce i c in
    let (held, holds) = check_scopes-empty c.required_scopes i.actor.scopes in
    let (safe, unsafe) = denied_by_risk_iff c.risk_level i.constraints.data_sensitivity in
    (
      λ h. record {
        scopes = held (ground (arith, tests));
        trust = ground (arith, tests);
        risk = safe (ground (arith, tests));
      },
      λ w. ground (arith, tests, holds w.scopes, w.trust, unsafe w.risk),
    )

if_map {ℓ κ} :
    {A : Type ℓ} {B : Type κ} (f : A → B) (b : Bool) (x y : A)
    → f (if b then x else y) ≡ (if b then f x else f y)
if_map f true x y = refl
if_map f false x y = refl

module _ (c : CapabilityDescriptor) (v : CapabilityVerdict) (rest : Survey) where
  admitted-add_verdict :
      (add_verdict c v rest).admitted ≡ (if v.allowed then c ∷ rest.admitted else rest.admitted)
  unfolding add_verdict
  admitted-add_verdict = if_map (λ (s : Survey). s.admitted) v.allowed _ _

  approvals-add_verdict : (add_verdict c v rest).approvals ≡ (
      if v.allowed
      then if v.approval then approval_name c ∷ rest.approvals else rest.approvals
      else rest.approvals)
  unfolding add_verdict
  approvals-add_verdict = if_map (λ (s : Survey). s.approvals) v.allowed _ _

-- The names of the approvals for those of the capabilities that need one.
abbrev pub approval_names : Bool → List CapabilityDescriptor → List String
approval_names enforce cs = map approval_name (keep_if (needs_approval enforce) cs)

pick_name :
    (c : CapabilityDescriptor) (b : Bool) (l : List String) (k : List CapabilityDescriptor)
    → l ≡ map approval_name k
    → (if b then approval_name c ∷ l else l) ≡ map approval_name (if b then c ∷ k else k)
pick_name c true l k h = ap (λ m. approval_name c ∷ m) h
pick_name c false l k h = h

add_name :
    (enforce : Bool) (c : CapabilityDescriptor) (a b : Bool) (l : List String)
    (k : List CapabilityDescriptor)
    → (a ≡ true → b ≡ needs_approval enforce c)
    → l ≡ approval_names enforce k
    → (if a then if b then approval_name c ∷ l else l else l)
      ≡ approval_names enforce (if a then c ∷ k else k)
add_name enforce c false b l k same h = h
add_name enforce c true b l k same h =
    ap (λ t. if t then approval_name c ∷ l else l) (same refl)
    ∙ pick_name c (needs_approval enforce c) l (keep_if (needs_approval enforce) k) h

module _ (enforce : Bool) (i : NormalizedIntent) where
  admitted-survey :
      (cs : List CapabilityDescriptor)
      → (survey enforce i cs).admitted ≡ keep_if (λ c. (evaluate_capability enforce i c).allowed) cs
  unfolding survey
  admitted-survey [] = refl
  admitted-survey (c ∷ cs) =
      let v = evaluate_capability enforce i c in
      admitted-add_verdict c v (survey enforce i cs)
      ∙ ap (λ l. if v.allowed then c ∷ l else l) (admitted-survey cs)

  pub approvals-survey :
      (cs : List CapabilityDescriptor)
      → (survey enforce i cs).approvals ≡ approval_names enforce (survey enforce i cs).admitted
  unfolding survey
  approvals-survey [] = refl
  approvals-survey (c ∷ cs) =
      let v = evaluate_capability enforce i c in
      let rest = survey enforce i cs in
      approvals-add_verdict c v rest
      ∙ add_name enforce c v.allowed v.approval rest.approvals rest.admitted
          (approval-evaluate_capability enforce i c) (approvals-survey cs)
      ∙ ap (approval_names enforce) (sym (admitted-add_verdict c v rest))

  pub In-survey :
      (c : CapabilityDescriptor) (cs : List CapabilityDescriptor)
      → In c (survey enforce i cs).admitted ↔ (In c cs × IsAdmitted i c)
  In-survey c cs =
      let test : CapabilityDescriptor → Bool = λ d. (evaluate_capability enforce i d).allowed in
      let (to, from) = evaluate_capability-IsAdmitted enforce i c in
      let kept = admitted-survey cs in
      (
        λ m.
            let (listed, passes) = In-keep_if test c cs (subst (In c) kept m) in
            (listed, to passes),
        λ (m, w). subst (In c) (sym kept) (keep_if-In test c cs m (from w)),
      )
