-- ===== src/Negotiation/Matcher.antt =====
-- `CapabilityMatcher` (sip/negotiation/matcher.py). A score gap of 1.0 is 2 halves of a point.
pub mod Selection
pub mod Clarification
use semantic_intent_protocol.Base.{
  some, [], take, is_some, keep_if, leb, is_empty, string_eq, map, ◌++◌, ◌||◌, contains_text,
  contains, ◌==◌, if◌then◌else◌, ◌∷◌, none, String, Bool, true, false, not, List, Option, ℕ, ◌-◌,
}
use semantic_intent_protocol.Envelope.Enums.{operation_eq, binding_eq, BindingType}
use semantic_intent_protocol.Envelope.Models.{
  CapabilityRequirement, IntentEnvelope, ProtocolBinding,
}
use semantic_intent_protocol.Negotiation.Results.{
  several_match, with_gap, NegotiationResult, ClarificationQuestion, no_capabilities_found,
  exact_name_match, partial_name_match, domain_match, operation_class_match, preferred_binding,
  score_part, RankedCandidate, Rationale, RationalePart,
}
use semantic_intent_protocol.Registry.Models.{CapabilityDescriptor}
use semantic_intent_protocol.Registry.Service.{find_matches, MatchQuery, Scored}
use semantic_intent_protocol.Registry.Storage.{CapabilityStore}
use mathlib.Core.Option

-- The first binding that the envelope asks for and the capability supports.
requested_binding : List ProtocolBinding → List BindingType → Option BindingType
requested_binding [] supported = none
requested_binding (pb ∷ pbs) supported =
    let rest = requested_binding pbs supported in
    if contains supported pb.binding_type then some pb.binding_type else rest

required_binding : List CapabilityRequirement → List BindingType → Option BindingType
required_binding [] supported = none
required_binding (r ∷ rs) supported =
    let rest = required_binding rs supported in
    elim r.preferred_binding [
      | none ↦ rest
      | some b ↦ if contains supported b then some b else rest
    ]

abbrev pub first {ℓ} : {A : Type ℓ} → List A → Option A
first [] = none
first (x ∷ xs) = some x

-- `_select_preferred_binding`
unfoldable pub select_preferred_binding : IntentEnvelope → CapabilityDescriptor → Option BindingType
unfolding requested_binding required_binding
select_preferred_binding e c = elim (requested_binding e.protocol_bindings c.supported_bindings) [
  | some b ↦ some b
  | none ↦ elim (required_binding e.capability_requirements c.supported_bindings) [
    | some b ↦ some b
    | none ↦ first c.supported_bindings
  ]
]

abbrev part_if : Bool → RationalePart → Rationale
part_if true p = p ∷ []
part_if false p = []

-- The arguments that `match` gives to `find_matches`.
abbrev pub query_of : IntentEnvelope → MatchQuery
query_of e = record {
  intent_name = e.intent.intent_name;
  intent_domain = e.intent.intent_domain;
  operation_class = e.intent.operation_class;
  actor_trust = e.actor.trust_level;
  preferred_binding = Option.map (λ pb. pb.binding_type) (first e.protocol_bindings);
  candidate_ids =
      (if is_empty e.negotiation.candidate_capabilities
        then none
        else some e.negotiation.candidate_capabilities);
  max_results = e.negotiation.max_candidates;
}

module _ (lower : String → String) where
  -- `_build_rationale`
  build_rationale : CapabilityDescriptor → ℕ → IntentEnvelope → Rationale
  unfolding select_preferred_binding
  build_rationale c score e =
      let name = lower e.intent.intent_name in
      (if name == lower c.capability_id
        then exact_name_match ∷ []
        else part_if
            (contains_text (lower c.capability_id) name || contains_text (lower c.name) name)
            partial_name_match)
      ++ (part_if (contains (map lower c.intent_domains) (lower e.intent.intent_domain))
            domain_match
          ++ (part_if (c.operation_class == e.intent.operation_class) operation_class_match
              ++ (elim (select_preferred_binding e c) [
                | none ↦ []
                | some b ↦ preferred_binding b ∷ []
              ]
                  ++ (score_part score ∷ []))))

  rank : IntentEnvelope → Scored → RankedCandidate
  unfolding build_rationale
  rank e (c, n) = record { capability = c; score = n; rationale = build_rationale c n e }

-- The outcome of the selection: what `match` sets before it builds the result.
record Choice : Type 0 where
  chosen : Option CapabilityDescriptor
  binding : Option BindingType
  rationale : Rationale
  clarify : Bool
  questions : List ClarificationQuestion

abbrev choose : IntentEnvelope → CapabilityDescriptor → Rationale → Choice
choose e c why = record {
  chosen = some c;
  binding = select_preferred_binding e c;
  rationale = why;
  clarify = false;
  questions = [];
}

abbrev ask : ClarificationQuestion → Choice
ask question = record {
  chosen = none;
  binding = none;
  rationale = [];
  clarify = true;
  questions = question ∷ [];
}

-- The candidates are in descending order of score, so the gap is not negative.
select : IntentEnvelope → List RankedCandidate → Choice
select e [] = ask (no_capabilities_found e.intent.intent_name e.intent.intent_domain)
select e (best ∷ []) = choose e best.capability best.rationale
select e (best ∷ second ∷ others) =
    let gap = best.score - second.score in
    if leb 2 gap
    then choose e best.capability best.rationale
    else if e.negotiation.allow_fallback
    then choose e best.capability (best.rationale ++ (with_gap gap ∷ []))
    else ask
        (several_match (map (λ r. r.capability.capability_id) (take 3 (best ∷ second ∷ others))))

-- The supported bindings, or those of them that the envelope asks for.
allowed_bindings_of : IntentEnvelope → Option CapabilityDescriptor → List BindingType
allowed_bindings_of e none = []
allowed_bindings_of e (some c) =
    if is_empty e.protocol_bindings
    then c.supported_bindings
    else keep_if (contains (map (λ pb. pb.binding_type) e.protocol_bindings)) c.supported_bindings

module _ (lower : String → String) where
  pub ranked_candidates_of : CapabilityStore → IntentEnvelope → List RankedCandidate
  unfolding rank
  ranked_candidates_of s e = map (rank lower e) (find_matches lower s (query_of e))

  unfoldable pub match : CapabilityStore → IntentEnvelope → NegotiationResult
  unfolding ranked_candidates_of select allowed_bindings_of select_preferred_binding
  match s e =
      let ranked = ranked_candidates_of s e in
      let c = select e ranked in
      record {
        intent_id = e.intent_id;
        ranked_candidates = ranked;
        selected_capability = c.chosen;
        selection_rationale = c.rationale;
        requires_clarification = c.clarify;
        clarification_questions = c.questions;
        allowed_bindings = allowed_bindings_of e c.chosen;
        selected_binding = c.binding;
        policy_decision = record {
          allowed = is_some c.chosen;
          requires_approval = false;
          denied_scopes = [];
          policy_notes = [];
          reason_code = "";
          conditions = [];
          required_approvals = [];
          allowed_capabilities = [];
        };
        extensions = [];
      }
