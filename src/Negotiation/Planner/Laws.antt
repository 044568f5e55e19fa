-- ===== src/Negotiation/Planner/Laws.antt =====
-- What a plan of `ExecutionPlanner` holds.
use mathlib.Core.Path.{sym, subst}
use semantic_intent_protocol.Base.{
  [], inr, Result, ◌∙◌, ◌≢◌, string_eq, ◌⊎◌, eq_iff, lookup-insert, insert, contains, is_some,
  arith, if◌then◌else◌, Option-cases, lookup, Value, ok, ◌||◌, Dict, List, ◌∷◌, none, some, inl,
  String, ◌≡◌, refl,
}
use semantic_intent_protocol.Envelope.Enums.{BindingType}
use semantic_intent_protocol.Envelope.Models.{IntentEnvelope}
use semantic_intent_protocol.Negotiation.Planner.{
  PlanError, plan_for, required_marker, invoke_step, ExecutionPlan, fill_required, plan,
}
use semantic_intent_protocol.Negotiation.Results.{NegotiationResult}
use semantic_intent_protocol.Registry.Models.{CapabilityDescriptor}

-- A supplied parameter stays as it is, a required field that was not supplied gets its marker, and
-- nothing else is added.
pub lookup-fill_required :
    (names : List String) (d : Dict Value) (k : String)
    → lookup k (fill_required names d) ≡ (
        if is_some (lookup k d)
        then lookup k d
        else if contains names k
        then some (required_marker k)
        else none)
unfolding fill_required
lookup-fill_required [] d k = ground arith
lookup-fill_required (name ∷ names) d k = ground (
  arith,
  lookup-fill_required names d k,
  lookup-fill_required names (insert name (required_marker name) d) k,
  lookup-insert name k (required_marker name) d,
  eq_iff k name,
  eq_iff name k,
)

-- The fields of a plan that the broker and the adapters read.
pub record IsPlanFor (e : IntentEnvelope) (n : NegotiationResult) (p : ExecutionPlan) : Type 0 where
  pub capability : n.selected_capability ≡ some p.selected_capability
  pub binding : n.selected_binding ≡ some p.selected_binding
  pub approval : p.approval_required ≡ (
      n.policy_decision.requires_approval
      || p.selected_capability.constraints.requires_human_approval)
  pub parameters :
      p.grounded_parameters
      ≡ fill_required p.selected_capability.input_schema.required_fields e.intent.parameters
  pub steps : p.execution_steps ≡ (
      invoke_step p.selected_capability p.selected_binding e.intent.intent_name
        p.grounded_parameters
      ∷ [])

plan_for-IsPlanFor :
    (id : String) (e : IntentEnvelope) (n : NegotiationResult) (c : CapabilityDescriptor)
    (b : BindingType)
    → n.selected_capability ≡ some c
    → n.selected_binding ≡ some b
    → IsPlanFor e n (plan_for id e n c b)
unfolding plan_for
plan_for-IsPlanFor id e n c b chosen bound = record {
  capability = chosen;
  binding = bound;
  approval = refl;
  parameters = refl;
  steps = refl;
}

plan-some :
    (id : String) (e : IntentEnvelope) (n : NegotiationResult) (c : CapabilityDescriptor)
    (b : BindingType)
    → n.selected_capability ≡ some c
    → n.selected_binding ≡ some b
    → plan id e n ≡ ok (plan_for id e n c b)
unfolding plan
plan-some id e n c b chosen bound = rw (chosen, plan) (rw bound)

plan-none :
    (id : String) (e : IntentEnvelope) (n : NegotiationResult) (p : ExecutionPlan)
    → (n.selected_capability ≡ none) ⊎ (n.selected_binding ≡ none)
    → plan id e n ≢ ok p
unfolding plan
plan-none id e n p (inl h) k = ground arith
plan-none id e n p (inr h) k = ground arith

ok-injective :
    {a b : ExecutionPlan} → ◌≡◌ {A = Result PlanError ExecutionPlan} (ok a) (ok b) → a ≡ b
ok-injective h = cc

-- A plan is for the selected capability and binding, needs approval exactly when the policy
-- decision or the capability asks for it, and its one step invokes that capability with the
-- grounded parameters.
pub plan-IsPlanFor :
    (id : String) (e : IntentEnvelope) (n : NegotiationResult) (p : ExecutionPlan)
    → plan id e n ≡ ok p
    → IsPlanFor e n p
plan-IsPlanFor id e n p h = elim (Option-cases n.selected_capability) [
  | inl absent ↦ absurd (plan-none id e n p (inl absent) h)
  | inr (c, chosen) ↦ elim (Option-cases n.selected_binding) [
    | inl unbound ↦ absurd (plan-none id e n p (inr unbound) h)
    | inr (b, bound) ↦
        subst (IsPlanFor e n) (ok-injective (sym (plan-some id e n c b chosen bound) ∙ h))
          (plan_for-IsPlanFor id e n c b chosen bound)
  ]
]

-- The planner produces a plan whenever a capability and a binding are selected.
pub plan_succeeds :
    (id : String) (e : IntentEnvelope) (n : NegotiationResult) (c : CapabilityDescriptor)
    (b : BindingType)
    → n.selected_capability ≡ some c
    → n.selected_binding ≡ some b
    → (p : ExecutionPlan) × (plan id e n ≡ ok p)
plan_succeeds id e n c b chosen bound = (plan_for id e n c b, plan-some id e n c b chosen bound)
