-- ===== src/Core/Planner/Refused.antt =====
-- A candidate that the policy refused, and that shares its id with an allowed one.
use semantic_intent_protocol.Base.{
  [], refl, length, ap, is_empty, ◌∙◌, false, eq_iff, insert_sorted, arith, sorted, ok, is_some,
  ◌≢◌, text_leb, ◌≡◌, String, ◌∷◌, true,
}
use semantic_intent_protocol.Core.Intent.{NormalizedIntent}
use semantic_intent_protocol.Core.Planner.{
  select_best_binding, key_leb, eligible_of, select_eligible, plan_selected, plan_normalized,
}
use semantic_intent_protocol.Core.Planner.Choice.{
  present-check_allowed_capabilities_present, allowed-check_policy_allowed,
  is_some-preferred_or_first, require_binding-some,
}
use semantic_intent_protocol.Negotiation.Matcher.{first}
use semantic_intent_protocol.Negotiation.Planner.{ExecutionPlan}
use semantic_intent_protocol.Policy.Interface.{PolicyResult}
use semantic_intent_protocol.Registry.Models.{CapabilityDescriptor}

module _ (refused granted : CapabilityDescriptor)
    (same : refused.capability_id ≡ granted.capability_id) where
  eligible_of-both :
      (r : PolicyResult)
      → r.allowed_capabilities ≡ (granted ∷ [])
      → eligible_of r (refused ∷ granted ∷ []) ≡ (refused ∷ granted ∷ [])
  unfolding eligible_of
  eligible_of-both r only = ground (
    arith,
    eq_iff granted.capability_id granted.capability_id,
    eq_iff refused.capability_id granted.capability_id,
  )

  select_eligible-smaller :
      text_leb refused.provider.provider_id granted.provider.provider_id ≡ true
      → refused.provider.provider_id ≢ granted.provider.provider_id
      → select_eligible (refused ∷ granted ∷ []) ≡ ok refused
  unfolding select_eligible sorted insert_sorted key_leb
  select_eligible-smaller below apart =
      ground (arith, eq_iff refused.provider.provider_id granted.provider.provider_id)

-- Of two candidates with one capability id, from two providers, of which the policy allows only the
-- second, the planner selects the first, which was refused, if its provider's id is the smaller one
-- and it supports a binding.
pub plan_normalized-selects_refused :
    (plan_id span_id : String) (i : NormalizedIntent) (r : PolicyResult)
    (refused granted : CapabilityDescriptor)
    → r.allowed ≡ true
    → r.allowed_capabilities ≡ (granted ∷ [])
    → refused.capability_id ≡ granted.capability_id
    → text_leb refused.provider.provider_id granted.provider.provider_id ≡ true
    → refused.provider.provider_id ≢ granted.provider.provider_id
    → is_some (first refused.supported_bindings) ≡ true
    → (p : ExecutionPlan) × (plan_normalized plan_id span_id i r (refused ∷ granted ∷ []) ≡ ok p)
      × (p.selected_capability ≡ refused)
unfolding plan_normalized plan_selected
plan_normalized-selects_refused plan_id span_id i r refused granted allowed only same below apart
      bound =
    let cs = refused ∷ granted ∷ [] in
    let (b, got) =
      require_binding-some refused (select_best_binding i refused) (
        is_some-preferred_or_first refused.supported_bindings i.preferred_execution_mode ∙ bound) in
    let present : is_empty r.allowed_capabilities ≡ false = ap is_empty only in
    let chosen =
      ap select_eligible (eligible_of-both refused granted same r only)
      ∙ select_eligible-smaller refused granted same below apart in
    (
      plan_selected plan_id span_id i r (length (eligible_of r cs)) refused b,
      rw (allowed-check_policy_allowed r allowed)
          (rw (present-check_allowed_capabilities_present r present) (rw chosen (rw got refl))),
      refl,
    )
