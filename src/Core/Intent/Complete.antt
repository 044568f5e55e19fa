-- ===== src/Core/Intent/Complete.antt =====
-- What `from_envelope` accepts, and what its metadata hold.
use mathlib.Core.Path.{subst}
use semantic_intent_protocol.Base.{
  [], refl, ◌==◌, true, false, ◌∙◌, Option, insert, if-true, if-false, string_eq, sym, ap, Bool,
  eq_iff, lookup-insert, ◌∷◌, is_some, ◌&&◌, not, arith, if◌then◌else◌, ◌||◌, NodupKeys, ℤ, ◌↔◌,
  lookup, Dict, ◌≡◌, String, is_blank, Value, some, none,
}
use semantic_intent_protocol.Core.Intent.{
  fields_of, metadata_of, is_extracted, NormalizedIntent, normalized_actor, normalized_constraints,
  normalized, update_metadata, validated, from_envelope,
}
use semantic_intent_protocol.Envelope.Models.{IntentEnvelope}

-- None of the texts that an intent is known by is empty.
pub record IsComplete (e : IntentEnvelope) : Type 0 where
  pub intent_id : is_blank e.intent_id ≡ false
  pub trace_id : is_blank e.trace_id ≡ false
  pub goal : is_blank e.desired_outcome.summary ≡ false
  pub actor_id : is_blank e.actor.actor_id ≡ false

validated-some :
    (i : NormalizedIntent)
    → ((j : NormalizedIntent) × (validated i ≡ some j)) ↔ (
        (is_blank i.intent_id
          || (is_blank i.correlation_id || (is_blank i.goal || is_blank i.actor.actor_id)))
        ≡ false)
unfolding validated
validated-some i = (λ (j, h). ground arith, λ h. (i, ground arith))

module _ (text_of : Value → String) (model_dump : IntentEnvelope → Dict Value) where
  -- An envelope is normalized exactly when its intent id, its trace id, its goal and its actor's id
  -- are not empty.
  pub from_envelope-IsComplete :
      (now : ℤ) (e : IntentEnvelope)
      → ((i : NormalizedIntent) × (from_envelope text_of model_dump now e ≡ some i)) ↔ IsComplete e
  unfolding from_envelope normalized normalized_actor
  from_envelope-IsComplete now e =
      let (to, from) = validated-some (normalized text_of model_dump now e) in
      (
        λ h.
            let full = to h in
            record {
              intent_id = ground arith;
              trace_id = ground arith;
              goal = ground arith;
              actor_id = ground arith;
            },
        λ w. from (ground (arith, w.intent_id, w.trace_id, w.goal, w.actor_id)),
      )

-- One round of the update, for a key that is looked up: `same` if it is the round's key.
merge_round :
    (same own other : Bool) (v : Value) (later earlier : Option Value)
    → (same ≡ true → other ≡ own)
    → (same ≡ true → later ≡ none)
    → (if not own && is_some later
        then later
        else if other
        then earlier
        else if same
        then some v
        else earlier)
      ≡ (if not own && is_some (if same then some v else later)
          then if same then some v else later
          else earlier)
merge_round false own true v later earlier h k = refl
merge_round false own false v later earlier h k = refl
merge_round true true other v later earlier h k = if-true other _ _ (h refl)
merge_round true false other v later earlier h k =
    ap (λ l. if is_some l then l else if other then earlier else some v) (k refl)
    ∙ if-false other _ _ (h refl)

lookup-round :
    (other : Bool) (j k : String) (v : Value) (d : Dict Value)
    → lookup k (if other then d else insert j v d)
      ≡ (if other then lookup k d else if j == k then some v else lookup k d)
lookup-round true j k v d = refl
lookup-round false j k v d = lookup-insert j k v d

-- What the update leaves under a key: the caller's value wherever the caller gives one, except
-- under the three extracted keys.
lookup-update_metadata :
    (additional d : Dict Value) (k : String)
    → NodupKeys additional
    → lookup k (update_metadata additional d) ≡ (
        if not (is_extracted k) && is_some (lookup k additional)
        then lookup k additional
        else lookup k d)
unfolding update_metadata lookup
lookup-update_metadata [] d k u =
    sym (if-false (not (is_extracted k) && false) _ _ (and_false (not (is_extracted k))))
  where
    and_false : (b : Bool) → (b && false) ≡ false
    and_false true = refl
    and_false false = refl
lookup-update_metadata ((j, v) ∷ additional) d k (fresh, u) =
    lookup-update_metadata additional (if is_extracted j then d else insert j v d) k u
    ∙ ap
        (λ t.
          if not (is_extracted k) && is_some (lookup k additional) then lookup k additional else t)
        (lookup-round (is_extracted j) j k v d)
    ∙ merge_round (j == k) (is_extracted k) (is_extracted j) v (lookup k additional) (lookup k d)
        (λ e. ap is_extracted ((eq_iff j k).0 e))
        (λ e. ap (λ l. lookup l additional) (sym ((eq_iff j k).0 e)) ∙ fresh)

parameters_kept :
    (e : IntentEnvelope)
    → NodupKeys e.context.additional
    → lookup "parameters" (metadata_of e) ≡ (
        if is_some (lookup "parameters" e.context.additional)
        then lookup "parameters" e.context.additional
        else some (Value.dict (fields_of e.intent.parameters)))
unfolding metadata_of lookup is_extracted
parameters_kept e u = lookup-update_metadata e.context.additional _ "parameters" u

validated_same : (i j : NormalizedIntent) → validated i ≡ some j → i ≡ j
unfolding validated
validated_same i j h = ground arith

-- Under `parameters` the metadata of a normalized intent hold the intent's parameters, unless the
-- additional context of the envelope has a key of that name: then its value replaces them.
pub metadata-from_envelope :
    (text_of : Value → String) (model_dump : IntentEnvelope → Dict Value) (now : ℤ)
    (e : IntentEnvelope) (i : NormalizedIntent)
    → NodupKeys e.context.additional
    → from_envelope text_of model_dump now e ≡ some i
    → lookup "parameters" i.metadata ≡ (
        if is_some (lookup "parameters" e.context.additional)
        then lookup "parameters" e.context.additional
        else some (Value.dict (fields_of e.intent.parameters)))
unfolding from_envelope normalized
metadata-from_envelope text_of model_dump now e i u h =
    ap (λ j. lookup "parameters" j.metadata)
      (sym (validated_same (normalized text_of model_dump now e) i h))
    ∙ parameters_kept e u

-- What the policy engine reads of a normalized intent, as it stands in the envelope.
pub record IsImage (e : IntentEnvelope) (i : NormalizedIntent) : Type 0 where
  pub scopes : i.actor.scopes ≡ e.actor.scopes
  pub trust_level : i.actor.trust_level ≡ e.actor.trust_level
  pub originator : i.actor.originator ≡ (elim e.provenance [ none ↦ none | some p ↦ p.originator ])
  pub chain :
      i.actor.delegation_chain ≡ (elim e.provenance [ none ↦ [] | some p ↦ p.delegation_chain ])
  pub sensitivity : i.constraints.data_sensitivity ≡ e.constraints.data_sensitivity

pub from_envelope-IsImage :
    (text_of : Value → String) (model_dump : IntentEnvelope → Dict Value) (now : ℤ)
    (e : IntentEnvelope) (i : NormalizedIntent)
    → from_envelope text_of model_dump now e ≡ some i
    → IsImage e i
unfolding from_envelope normalized normalized_actor normalized_constraints
from_envelope-IsImage text_of model_dump now e i h =
    subst (IsImage e) (validated_same (normalized text_of model_dump now e) i h) (record {
      scopes = refl;
      trust_level = refl;
      originator = refl;
      chain = refl;
      sensitivity = refl;
    })
