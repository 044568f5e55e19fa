-- ===== src/Tests/Pipeline.antt =====
-- The theorems on the pipeline and its planner, on one request.
use semantic_intent_protocol.Base.{
  [], some, insert, lookup, ◌⊎◌, In, is_empty, is_some, ap, ok, string_eq, swap, sym, text_leb,
  true_ne_false, sorted, ◌∙◌, ◌≡◌, ◌==◌, ◌≢◌, List, String, ◌∷◌, true, false, inl, inr, refl,
}
use semantic_intent_protocol.Core.Bundle.{DecisionBundle, PipelineDraws}
use semantic_intent_protocol.Core.Intent.{from_envelope, NormalizedIntent}
use semantic_intent_protocol.Core.Pipeline.{hand_over, Turn, process}
use semantic_intent_protocol.Core.Pipeline.Agreement.{
  IsCoherent, is_some-process, process-IsCoherent,
}
use semantic_intent_protocol.Core.Pipeline.Record.{process-IsRecordOf, IsRecordOf}
use semantic_intent_protocol.Core.Pipeline.Safety.{process-IsSafe, IsSafe, HasUniqueIds}
use semantic_intent_protocol.Core.Pipeline.Success.{process_succeeds}
use semantic_intent_protocol.Core.Planner.{plan_selected, plan_normalized}
use semantic_intent_protocol.Core.Planner.Choice.{
  plan_normalized-some, plan_normalized-IsLeast, IsChosen,
}
use semantic_intent_protocol.Core.Planner.Order.{plan_normalized-IsReordering}
use semantic_intent_protocol.Core.Planner.Refused.{plan_normalized-selects_refused}
use semantic_intent_protocol.Core.Policy.{evaluate_internal}
use semantic_intent_protocol.Core.Policy.Admitted.{evaluate_internal-IsAdmitted, IsCleared}
use semantic_intent_protocol.Core.Policy.Candidates.{IsAdmitted}
use semantic_intent_protocol.Envelope.Enums.{BindingType}
use semantic_intent_protocol.Envelope.Validator.{sorted_set, validate_envelope}
use semantic_intent_protocol.Envelope.Validator.Accepted.{IsAccepted}
use semantic_intent_protocol.Envelope.Validator.Laws.{validate_envelope-IsAccepted}
use semantic_intent_protocol.Negotiation.Matcher.{first}
use semantic_intent_protocol.Negotiation.Planner.{ExecutionPlan}
use semantic_intent_protocol.Policy.Interface.{PolicyResult}
use semantic_intent_protocol.Registry.Models.{CapabilityDescriptor}
use semantic_intent_protocol.Tests.{get_article, list_articles, noon}
use semantic_intent_protocol.Tests.Core.{
  intent_normalized, no_dump, contextual, plain_text, settings, intent,
}

abbrev pipeline_draws : PipelineDraws
pipeline_draws = record {
  normalized_at = noon;
  stubbed_at = noon;
  checked_at = noon;
  recorded_at = noon;
  audit_id = "audit-1";
  plan_id = "plan-1";
  span_id = "span-2";
}

abbrev candidates : List CapabilityDescriptor
candidates = list_articles ∷ get_article ∷ []

abbrev canonical : NormalizedIntent → List CapabilityDescriptor → PolicyResult
canonical = evaluate_internal settings

abbrev decision : PolicyResult
decision = canonical intent candidates

texts_differ : (s t : String) → s == t ≡ false → s ≡ t → ⊥
texts_differ s t h e = absurd (true_ne_false (sym ((string_eq.beq_iff s t).1 e) ∙ h))

pair_unique :
    (a b : CapabilityDescriptor) → a.capability_id ≢ b.capability_id → HasUniqueIds (a ∷ b ∷ [])
pair_unique a b h c d (inl p) (inl q) e = p ∙ sym q
pair_unique a b h c d (inl p) (inr (inl q)) e =
    absurd (h (sym (ap (λ x. x.capability_id) p) ∙ (e ∙ ap (λ x. x.capability_id) q)))
pair_unique a b h c d (inr (inl p)) (inl q) e =
    absurd (h (sym (ap (λ x. x.capability_id) q) ∙ (sym e ∙ ap (λ x. x.capability_id) p)))
pair_unique a b h c d (inr (inl p)) (inr (inl q)) e = p ∙ sym q
pair_unique a b h c d (inl p) (inr (inr x)) e = absurd x
pair_unique a b h c d (inr (inl p)) (inr (inr x)) e = absurd x
pair_unique a b h c d (inr (inr x)) y e = absurd x

candidates-HasUniqueIds : HasUniqueIds candidates
candidates-HasUniqueIds =
    pair_unique list_articles get_article (texts_differ "list_articles" "get_article" refl)

plan_normalized-IsReordering_example :
    plan_normalized "plan-1" "span-2" intent decision (list_articles ∷ get_article ∷ [])
    ≡ plan_normalized "plan-1" "span-2" intent decision (get_article ∷ list_articles ∷ [])
plan_normalized-IsReordering_example =
    plan_normalized-IsReordering "plan-1" "span-2" intent decision candidates
      (get_article ∷ list_articles ∷ []) (λ a b m k p e. candidates-HasUniqueIds a b m k e)
      (swap list_articles get_article [])

abbrev selected_plan : ExecutionPlan
selected_plan = plan_selected "plan-1" "span-2" intent decision 2 get_article BindingType.mcp

selected : plan_normalized "plan-1" "span-2" intent decision candidates ≡ ok selected_plan
unfolding plan_normalized evaluate_internal sorted text_leb
selected = refl

plan_normalized-IsLeast_example :
    IsChosen "plan-1" "span-2" intent decision candidates selected_plan
plan_normalized-IsLeast_example =
    plan_normalized-IsLeast "plan-1" "span-2" intent decision candidates selected_plan selected

candidates_bound :
    (c : CapabilityDescriptor)
    → In c candidates ⊎ In c decision.allowed_capabilities
    → is_some (first c.supported_bindings) ≡ true
unfolding evaluate_internal
candidates_bound c (inl (inl p)) = ap (λ x. is_some (first x.supported_bindings)) p
candidates_bound c (inl (inr (inl p))) = ap (λ x. is_some (first x.supported_bindings)) p
candidates_bound c (inl (inr (inr x))) = absurd x
candidates_bound c (inr (inl p)) = ap (λ x. is_some (first x.supported_bindings)) p
candidates_bound c (inr (inr (inl p))) = ap (λ x. is_some (first x.supported_bindings)) p
candidates_bound c (inr (inr (inr x))) = absurd x

decision_allowed : decision.allowed ≡ true
unfolding evaluate_internal
decision_allowed = refl

decision_present : is_empty decision.allowed_capabilities ≡ false
unfolding evaluate_internal
decision_present = refl

plan_normalized-some_example :
    (p : ExecutionPlan) × (plan_normalized "plan-1" "span-2" intent decision candidates ≡ ok p)
plan_normalized-some_example =
    plan_normalized-some "plan-1" "span-2" intent decision candidates decision_allowed
      decision_present candidates_bound

abbrev refused_article : CapabilityDescriptor
refused_article = record get_article {
  provider = record get_article.provider { provider_id = "a" };
  required_scopes = "write" ∷ [];
}

abbrev article_decision : PolicyResult
article_decision = record decision { allowed_capabilities = get_article ∷ [] }

a_is_below : text_leb refused_article.provider.provider_id get_article.provider.provider_id ≡ true
unfolding text_leb
a_is_below = refl

plan_normalized-selects_refused_example :
    (p : ExecutionPlan) × (plan_normalized "plan-1" "span-2" intent article_decision
        (refused_article ∷ get_article ∷ [])
      ≡ ok p)
    × (p.selected_capability ≡ refused_article)
plan_normalized-selects_refused_example =
    plan_normalized-selects_refused "plan-1" "span-2" intent article_decision refused_article
      get_article decision_allowed refl refl a_is_below
      (texts_differ "a" get_article.provider.provider_id refl) refl

process-IsRecordOf_example :
    (t : Turn) × IsRecordOf contextual t
    × (process plain_text no_dump canonical pipeline_draws candidates contextual []
        ≡ (t.bundle, t.audit ∷ []))
process-IsRecordOf_example =
    process-IsRecordOf plain_text no_dump canonical pipeline_draws candidates contextual []

abbrev bundle : DecisionBundle
bundle = hand_over pipeline_draws contextual intent decision selected_plan

processed :
    (process plain_text no_dump canonical pipeline_draws candidates contextual []).0 ≡ some bundle
unfolding process from_envelope lookup insert text_leb sorted plan_normalized evaluate_internal
    validate_envelope sorted_set
processed = refl

process-IsCoherent_example : IsCoherent bundle
process-IsCoherent_example =
    process-IsCoherent plain_text no_dump canonical pipeline_draws candidates contextual [] bundle
      processed

is_some-process_example :
    is_some (process plain_text no_dump canonical pipeline_draws candidates contextual []).0 ≡ true
is_some-process_example =
    is_some-process plain_text no_dump canonical pipeline_draws candidates contextual []

process-IsSafe_example : IsSafe settings noon contextual candidates selected_plan
unfolding hand_over
process-IsSafe_example =
    process-IsSafe plain_text no_dump settings pipeline_draws candidates contextual [] bundle
      selected_plan candidates-HasUniqueIds processed refl

contextual-IsAccepted : IsAccepted noon contextual
unfolding validate_envelope sorted_set text_leb
contextual-IsAccepted = (validate_envelope-IsAccepted noon contextual).0 refl

get_article-IsAdmitted :
    IsCleared settings intent × In get_article candidates × IsAdmitted intent get_article
unfolding evaluate_internal
get_article-IsAdmitted =
    (evaluate_internal-IsAdmitted settings intent candidates get_article).0 (inr (inl refl))

process_succeeds_example :
    (b : DecisionBundle) × (p : ExecutionPlan) × ((process plain_text no_dump canonical
        pipeline_draws candidates contextual []).0
      ≡ some b)
    × (b.execution_plan ≡ some p)
process_succeeds_example =
    process_succeeds plain_text no_dump settings pipeline_draws candidates contextual intent
      get_article [] intent_normalized contextual-IsAccepted get_article-IsAdmitted.0
      get_article-IsAdmitted.1 get_article-IsAdmitted.2 (λ a m. candidates_bound a (inl m))
