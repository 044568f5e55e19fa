-- ===== src/Core/Planner/Choice.antt =====
-- What `DeterministicPlanner.plan` selects, and when it gives a plan.
use mathlib.Core.Path.{sym, subst}
use semantic_intent_protocol.Base.{
  [], refl, string_eq, map, In-keep_if, contains, ◌∙◌, Bool, keep_if, true_ne_false, is_empty,
  length, ◌⊎◌, false, ok-bind, ok, inl, inr, is_blank, if◌then◌else◌, Option, is_some, none, true,
  arith, In, String, List, ◌≡◌, ◌∷◌, some,
}
use semantic_intent_protocol.Core.FailClosed.{
  check_allowed_capabilities_present, check_policy_allowed,
}
use semantic_intent_protocol.Core.Intent.{NormalizedIntent}
use semantic_intent_protocol.Core.Planner.{
  eligible_of, plan_selected, plan_normalized, preferred_or_first, require_binding, select_eligible,
  binding_of_value, select_best_binding,
}
use semantic_intent_protocol.Core.Planner.Order.{select_eligible_lem, IsLeast}
use semantic_intent_protocol.Envelope.Enums.{BindingType}
use semantic_intent_protocol.Negotiation.Matcher.{first}
use semantic_intent_protocol.Negotiation.Planner.{ExecutionPlan}
use semantic_intent_protocol.Policy.Interface.{PolicyResult}
use semantic_intent_protocol.Registry.Models.{CapabilityDescriptor}

binding_of_value-In :
    (preferred : String) (bs : List BindingType) (b : BindingType)
    → binding_of_value preferred bs ≡ some b
    → In b bs
unfolding binding_of_value
binding_of_value-In preferred [] b h = ground (arith, h)
binding_of_value-In preferred (x ∷ bs) b h = ground (arith, binding_of_value-In preferred bs b)

first-In : (bs : List BindingType) (b : BindingType) → first bs ≡ some b → In b bs
first-In [] b h = ground (arith, h)
first-In (x ∷ bs) b h = ground (arith, h)

In-first : (bs : List BindingType) (b : BindingType) → In b bs → is_some (first bs) ≡ true
In-first [] b m = absurd m
In-first (x ∷ xs) b m = refl

module _ (bs : List BindingType) where
  preferred_or_first-In :
      (mode : Option String) (b : BindingType) → preferred_or_first bs mode ≡ some b → In b bs
  unfolding preferred_or_first
  preferred_or_first-In none b h = first-In bs b h
  preferred_or_first-In (some p) b h = ground (arith, first-In bs b, binding_of_value-In p bs b)

  pub is_some-preferred_or_first :
      (mode : Option String) → is_some (preferred_or_first bs mode) ≡ is_some (first bs)
  unfolding preferred_or_first
  is_some-preferred_or_first none = refl
  is_some-preferred_or_first (some p) = found (binding_of_value p bs) (binding_of_value-In p bs)
    where
      found :
          (o : Option BindingType)
          → ((b : BindingType) → o ≡ some b → In b bs)
          → is_some (if is_blank p then first bs else elim o [ none ↦ first bs | some b ↦ some b ])
            ≡ is_some (first bs)
      found none m = ground arith
      found (some b) m = ground (arith, In-first bs b (m b refl))

check_policy_allowed-ok : (r : PolicyResult) → check_policy_allowed r ≡ ok tt → r.allowed ≡ true
unfolding check_policy_allowed
check_policy_allowed-ok r h = ground arith

require_binding-ok :
    (c : CapabilityDescriptor) (o : Option BindingType) (b : BindingType)
    → require_binding c o ≡ ok b
    → o ≡ some b
unfolding require_binding
require_binding-ok c none b h = cc
require_binding-ok c (some x) b h = cc

select_eligible-ok :
    (xs : List CapabilityDescriptor) (c : CapabilityDescriptor)
    → select_eligible xs ≡ ok c
    → IsLeast c xs
select_eligible-ok xs c h = elim (select_eligible_lem xs) [
  | inl (e, k) ↦ cc
  | inr (d, least, k) ↦ let same : d ≡ c = cc in subst (λ x. IsLeast x xs) same least
]

module _ (plan_id span_id : String) (i : NormalizedIntent) (r : PolicyResult)
    (cs : List CapabilityDescriptor) where
  abbrev pub IsChosen : ExecutionPlan → Type 0
  IsChosen p =
      (r.allowed ≡ true)
      × IsLeast p.selected_capability (eligible_of r cs)
      × In p.selected_binding p.selected_capability.supported_bindings

  -- A plan is given only for an intent that the policy allows, for the capability that is least by
  -- provider and id among the eligible ones, with one of that capability's bindings.
  pub plan_normalized-IsLeast :
      (p : ExecutionPlan) → plan_normalized plan_id span_id i r cs ≡ ok p → IsChosen p
  unfolding plan_normalized plan_selected
  plan_normalized-IsLeast p h =
      let (u, allowed, h1) = ok-bind (check_policy_allowed r) _ p h in
      let (v, present, h2) = ok-bind (check_allowed_capabilities_present r) _ p h1 in
      let (c, chosen, h3) = ok-bind (select_eligible (eligible_of r cs)) _ p h2 in
      let (b, bound, h4) = ok-bind (require_binding c (select_best_binding i c)) _ p h3 in
      let same : plan_selected plan_id span_id i r (length (eligible_of r cs)) c b ≡ p = cc in
      subst IsChosen same (
        check_policy_allowed-ok r allowed,
        select_eligible-ok (eligible_of r cs) c chosen,
        preferred_or_first-In c.supported_bindings i.preferred_execution_mode b
            (require_binding-ok c (select_best_binding i c) b bound),
      )

abbrev is_id_of : PolicyResult → CapabilityDescriptor → Bool
is_id_of r c = contains (map (λ a. a.capability_id) r.allowed_capabilities) c.capability_id

fallback-In :
    {A : Type 0} (a : A) (allowed kept : List A)
    → In a (if is_empty kept then allowed else kept)
    → In a kept ⊎ In a allowed
fallback-In a allowed [] m = inr m
fallback-In a allowed (x ∷ xs) m = inl m

is_empty-fallback :
    {A : Type 0} (allowed kept : List A)
    → is_empty allowed ≡ false
    → is_empty (if is_empty kept then allowed else kept) ≡ false
is_empty-fallback allowed [] h = h
is_empty-fallback allowed (x ∷ xs) h = refl

pub eligible_of-In :
    (r : PolicyResult) (cs : List CapabilityDescriptor) (c : CapabilityDescriptor)
    → In c (eligible_of r cs)
    → (In c cs × (is_id_of r c ≡ true)) ⊎ In c r.allowed_capabilities
unfolding eligible_of
eligible_of-In r cs c m = elim (fallback-In c r.allowed_capabilities (keep_if (is_id_of r) cs) m) [
  | inl kept ↦ inl (In-keep_if (is_id_of r) c cs kept)
  | inr allowed ↦ inr allowed
]

select_eligible-some :
    (xs : List CapabilityDescriptor)
    → is_empty xs ≡ false
    → (c : CapabilityDescriptor) × IsLeast c xs × (select_eligible xs ≡ ok c)
select_eligible-some xs h = elim (select_eligible_lem xs) [
  | inl (e, k) ↦ absurd (true_ne_false (sym e ∙ h))
  | inr found ↦ found
]

pub require_binding-some :
    (c : CapabilityDescriptor) (o : Option BindingType)
    → is_some o ≡ true
    → (b : BindingType) × (require_binding c o ≡ ok b)
unfolding require_binding
require_binding-some c (some b) h = (b, refl)
require_binding-some c none h = absurd (true_ne_false (sym h))

pub allowed-check_policy_allowed :
    (r : PolicyResult) → r.allowed ≡ true → check_policy_allowed r ≡ ok tt
unfolding check_policy_allowed
allowed-check_policy_allowed r h = ground arith

pub present-check_allowed_capabilities_present :
    (r : PolicyResult)
    → is_empty r.allowed_capabilities ≡ false
    → check_allowed_capabilities_present r ≡ ok tt
unfolding check_allowed_capabilities_present
present-check_allowed_capabilities_present r h = ground arith

-- An allowed intent with an allowed capability gets a plan if each candidate and each allowed
-- capability supports a binding.
pub plan_normalized-some :
    (plan_id span_id : String) (i : NormalizedIntent) (r : PolicyResult)
    (cs : List CapabilityDescriptor)
    → r.allowed ≡ true
    → is_empty r.allowed_capabilities ≡ false
    → ((c : CapabilityDescriptor)
        → In c cs ⊎ In c r.allowed_capabilities
        → is_some (first c.supported_bindings) ≡ true)
    → (p : ExecutionPlan) × (plan_normalized plan_id span_id i r cs ≡ ok p)
unfolding plan_normalized eligible_of
plan_normalized-some plan_id span_id i r cs allowed present bound =
    let eligible = eligible_of r cs in
    let (c, (m, least), chosen) =
      select_eligible-some eligible
        (is_empty-fallback r.allowed_capabilities (keep_if (is_id_of r) cs) present) in
    let listed : In c cs ⊎ In c r.allowed_capabilities = elim (eligible_of-In r cs c m) [
      | inl (l, k) ↦ inl l
      | inr l ↦ inr l
    ] in
    let (b, got) = require_binding-some c (select_best_binding i c) (
      is_some-preferred_or_first c.supported_bindings i.preferred_execution_mode
      ∙ bound c listed) in
    (
      plan_selected plan_id span_id i r (length eligible) c b,
      rw (allowed-check_policy_allowed r allowed)
          (rw (present-check_allowed_capabilities_present r present) (rw chosen (rw got refl))),
    )
