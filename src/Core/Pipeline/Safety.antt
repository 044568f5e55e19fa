-- ===== src/Core/Pipeline/Safety.antt =====
-- What a plan of `SIPPipeline.process` guarantees, with the canonical policy engine.
use mathlib.Core.Option.{Option}
use mathlib.Core.Path.{ap, sym, subst}
use semantic_intent_protocol.Base.{
  ◌∙◌, ◌≤◌, arith, length, is_blank, ◌&&◌, Bool, [], false, some, refl, none, subst-some, string_eq,
  contains→In, ok, In-map_inv, Dict, map, ◌≡◌, In, contains, String, ℤ, List, Value, true, inl, inr,
}
use semantic_intent_protocol.Core.Bundle.{
  denied_bundle, DecisionBundle, PipelineAudit, PipelineDraws,
}
use semantic_intent_protocol.Core.Intent.{from_envelope, NormalizedIntent}
use semantic_intent_protocol.Core.Intent.Complete.{from_envelope-IsImage}
use semantic_intent_protocol.Core.Pipeline.{
  Turn, hand_over, turn, refuse_unplanned, refuse_denied, refuse_invalid, process,
  refuse_unnormalized,
}
use semantic_intent_protocol.Core.Pipeline.Branches.{
  planned, unplanned, denied, invalid, unnormalized, IsTurn, turn-IsTurn,
}
use semantic_intent_protocol.Core.Planner.{eligible_of, plan_normalized}
use semantic_intent_protocol.Core.Planner.Choice.{eligible_of-In, plan_normalized-IsLeast}
use semantic_intent_protocol.Core.Policy.{evaluate_internal, CanonicalSettings}
use semantic_intent_protocol.Core.Policy.Admitted.{evaluate_internal-IsAdmitted, IsCleared}
use semantic_intent_protocol.Core.Policy.Candidates.{IsAdmitted}
use semantic_intent_protocol.Envelope.Enums.{DataSensitivity, trust_order}
use semantic_intent_protocol.Envelope.Models.{ProvenanceBlock, IntentEnvelope}
use semantic_intent_protocol.Envelope.Validator.{validate_envelope}
use semantic_intent_protocol.Envelope.Validator.Accepted.{IsSubset, IsAccepted}
use semantic_intent_protocol.Envelope.Validator.Laws.{validate_envelope-IsAccepted}
use semantic_intent_protocol.Negotiation.Planner.{ExecutionPlan}
use semantic_intent_protocol.Policy.Interface.{PolicyResult}
use semantic_intent_protocol.Registry.Models.{RiskLevel, CapabilityDescriptor}
use mathlib.Core.Option

-- No two candidates share an id.
abbrev pub HasUniqueIds : List CapabilityDescriptor → Type 0
HasUniqueIds cs =
    (a b : CapabilityDescriptor) → In a cs → In b cs → a.capability_id ≡ b.capability_id → a ≡ b

-- What a plan for an envelope guarantees, all of it said of the envelope itself.
pub record IsSafe (w : CanonicalSettings) (now : ℤ) (e : IntentEnvelope)
    (cs : List CapabilityDescriptor) (p : ExecutionPlan) : Type 0 where
  pub accepted : IsAccepted now e
  pub originator :
      w.require_provenance ≡ true
      → (v : ProvenanceBlock) × (o : String) × (e.provenance ≡ some v)
        × (v.originator ≡ some o)
        × (is_blank o ≡ false)
  pub depth : (v : ProvenanceBlock) → e.provenance ≡ some v → length v.delegation_chain ≤ 5
  pub candidate : In p.selected_capability cs
  pub scopes : IsSubset p.selected_capability.required_scopes e.actor.scopes
  pub trust : trust_order p.selected_capability.minimum_trust_tier ≤ trust_order e.actor.trust_level
  pub risk :
      (p.selected_capability.risk_level ≡ RiskLevel.critical)
      → (e.constraints.data_sensitivity ≡ DataSensitivity.restricted)
      → ⊥
  pub binding : In p.selected_binding p.selected_capability.supported_bindings

-- A required originator that is not missing is there and is not empty.
known_originator :
    (required : Bool) (provenance : Option ProvenanceBlock) (given : Option String)
    → given ≡ (elim provenance [ none ↦ none | some v ↦ v.originator ])
    → (required && (elim given [ none ↦ true | some o ↦ is_blank o ])) ≡ false
    → required ≡ true
    → (v : ProvenanceBlock) × (o : String) × (provenance ≡ some v)
      × (v.originator ≡ some o)
      × (is_blank o ≡ false)
known_originator required none none same h r = absurd (ground arith)
known_originator required none (some o) same h r = absurd (ground arith)
known_originator required (some v) none same h r = absurd (ground arith)
known_originator required (some v) (some o) same h r = (v, o, refl, sym same, ground arith)

id_listed :
    (allowed : List CapabilityDescriptor) (c : CapabilityDescriptor)
    → contains (map (λ a. a.capability_id) allowed) c.capability_id ≡ true
    → (a : CapabilityDescriptor) × In a allowed × (c.capability_id ≡ a.capability_id)
id_listed allowed c h =
    In-map_inv (λ a. a.capability_id) c.capability_id allowed (contains→In _ c.capability_id h)

module _ (w : CanonicalSettings) (i : NormalizedIntent) (cs : List CapabilityDescriptor)
    (u : HasUniqueIds cs) where
  -- With distinct ids, what the planner selects is what the policy engine allowed.
  eligible-IsAdmitted :
      (c : CapabilityDescriptor)
      → In c (eligible_of (evaluate_internal w i cs) cs)
      → IsCleared w i × In c cs × IsAdmitted i c
  eligible-IsAdmitted c m = elim (eligible_of-In (evaluate_internal w i cs) cs c m) [
    | inr allowed ↦ (evaluate_internal-IsAdmitted w i cs c).0 allowed
    | inl (listed, h) ↦
        let (a, allowed, same) = id_listed (evaluate_internal w i cs).allowed_capabilities c h in
        let (cleared, k, admitted) = (evaluate_internal-IsAdmitted w i cs a).0 allowed in
        subst (λ x. IsCleared w i × In x cs × IsAdmitted i x) (sym (u c a listed k same))
          (cleared, k, admitted)
  ]

  plan_normalized-IsAdmitted :
      (plan_id span_id : String) (p : ExecutionPlan)
      → plan_normalized plan_id span_id i (evaluate_internal w i cs) cs ≡ ok p
      → (IsCleared w i × In p.selected_capability cs × IsAdmitted i p.selected_capability)
        × In p.selected_binding p.selected_capability.supported_bindings
  plan_normalized-IsAdmitted plan_id span_id p h =
      let (allowed, (m, least), bound) =
        plan_normalized-IsLeast plan_id span_id i (evaluate_internal w i cs) cs p h in
      (eligible-IsAdmitted p.selected_capability m, bound)

-- The plan of a bundle, if it has one, is safe.
abbrev HasSafePlan :
    CanonicalSettings → ℤ → IntentEnvelope → List CapabilityDescriptor → DecisionBundle → Type 0
HasSafePlan w now e cs b = (p : ExecutionPlan) → b.execution_plan ≡ some p → IsSafe w now e cs p

module _ (text_of : Value → String) (model_dump : IntentEnvelope → Dict Value)
    (w : CanonicalSettings) (d : PipelineDraws) (cs : List CapabilityDescriptor)
    (e : IntentEnvelope) where
  without_plan : (b : DecisionBundle) → b.execution_plan ≡ none → HasSafePlan w d.checked_at e cs b
  without_plan b h p k = cc

  map-HasSafePlan :
      (r : PolicyResult) (a : PipelineAudit) (o : Option NormalizedIntent) (b : DecisionBundle)
      → Option.map (λ i. denied_bundle i r a) o ≡ some b
      → HasSafePlan w d.checked_at e cs b
  unfolding denied_bundle
  map-HasSafePlan r a none b h = cc
  map-HasSafePlan r a (some i) b h =
      subst-some (HasSafePlan w d.checked_at e cs) (denied_bundle i r a) b h
        (without_plan (denied_bundle i r a) refl)

  planned-HasSafePlan :
      (i : NormalizedIntent) (q : ExecutionPlan)
      → HasUniqueIds cs
      → from_envelope text_of model_dump d.normalized_at e ≡ some i
      → (validate_envelope d.checked_at e).valid ≡ true
      → plan_normalized d.plan_id d.span_id i (evaluate_internal w i cs) cs ≡ ok q
      → HasSafePlan w d.checked_at e cs (hand_over d e i (evaluate_internal w i cs) q)
  unfolding hand_over
  planned-HasSafePlan i q u n v k p h =
      let image = from_envelope-IsImage text_of model_dump d.normalized_at e i n in
      let ((cleared, listed, admitted), bound) =
        plan_normalized-IsAdmitted w i cs u d.plan_id d.span_id q k in
      subst-some (IsSafe w d.checked_at e cs) q p h (record {
        accepted = (validate_envelope-IsAccepted d.checked_at e).0 v;
        originator =
            known_originator w.require_provenance e.provenance i.actor.originator image.originator
              cleared.originator;
        depth = λ x g.
            subst (λ l. length l ≤ 5)
              (image.chain ∙ ap (λ y. elim y [ none ↦ [] | some z ↦ z.delegation_chain ]) g)
              cleared.depth;
        candidate = listed;
        scopes =
            subst (IsSubset q.selected_capability.required_scopes) image.scopes admitted.scopes;
        trust =
            subst (λ l. trust_order q.selected_capability.minimum_trust_tier ≤ trust_order l)
              image.trust_level admitted.trust;
        risk = λ c g. admitted.risk c (image.sensitivity ∙ g);
        binding = bound;
      })

  IsTurn-HasSafePlan :
      HasUniqueIds cs
      → (t : Turn) → IsTurn text_of model_dump (evaluate_internal w) d cs e t
      → (b : DecisionBundle) → t.bundle ≡ some b
      → HasSafePlan w d.checked_at e cs b
  unfolding refuse_unnormalized refuse_invalid refuse_denied refuse_unplanned denied_bundle
  IsTurn-HasSafePlan u t (unnormalized h) b k = map-HasSafePlan _ _ _ b k
  IsTurn-HasSafePlan u t (invalid i h v) b k =
      subst-some (HasSafePlan w d.checked_at e cs) _ b k
        (without_plan (refuse_invalid d e i (validate_envelope d.checked_at e).errors) refl)
  IsTurn-HasSafePlan u t (denied i h v a) b k =
      subst-some (HasSafePlan w d.checked_at e cs) _ b k
        (without_plan (refuse_denied d e i (evaluate_internal w i cs)) refl)
  IsTurn-HasSafePlan u t (unplanned i denial h v) b k =
      subst-some (HasSafePlan w d.checked_at e cs) _ b k
        (without_plan (refuse_unplanned d e i denial) refl)
  IsTurn-HasSafePlan u t (planned i q h v a r) b k =
      subst-some (HasSafePlan w d.checked_at e cs) _ b k (planned-HasSafePlan i q u h v r)

  -- With the canonical policy engine and candidates of distinct ids, a bundle holds a plan only if
  -- the envelope is accepted, it names an originator where one is required, its delegation chain has
  -- at most 5 members, and the plan's capability is a candidate that asks for no scope and no trust
  -- that the envelope's actor lacks, is not of critical risk on restricted data, and is invoked by
  -- one of its own bindings.
  pub process-IsSafe :
      (log : List PipelineAudit) (b : DecisionBundle) (p : ExecutionPlan)
      → HasUniqueIds cs
      → (process text_of model_dump (evaluate_internal w) d cs e log).0 ≡ some b
      → b.execution_plan ≡ some p
      → IsSafe w d.checked_at e cs p
  unfolding process
  process-IsSafe log b p u h g =
      IsTurn-HasSafePlan u (turn text_of model_dump (evaluate_internal w) d cs e)
        (turn-IsTurn text_of model_dump (evaluate_internal w) d cs e) b h p g
