-- ===== src/Sdk/Helpers.antt =====
-- sip/sdk/helpers.py. A set of scopes is a list without repetitions; `isoformat` is Python's.
pub mod Scopes
use semantic_intent_protocol.Base.{
  pos, length, map, Dict, ℕ, String, List, Option, none, some, [], ◌∷◌, Bool, Value, ◌++◌,
}
use semantic_intent_protocol.Broker.Identity.{map_identity_headers, is_trusted_identity_enabled}
use semantic_intent_protocol.Broker.Responses.{items_of}
use semantic_intent_protocol.Envelope.Models.{
  ActorDescriptor, IntentEnvelope, Datetime, ProvenanceBlock,
}
use semantic_intent_protocol.Envelope.Validator.{common, unique}

module _ (lower strip : String → String) where
  -- `trusted` is `none` where the environment variable decides.
  unfoldable pub is_trusted : Option Bool → Option String → Bool
  is_trusted none variable = is_trusted_identity_enabled lower variable
  is_trusted (some trusted) variable = trusted

  unfoldable pub merge_identity_context :
      Option Bool → Option String → Dict String → ActorDescriptor → ActorDescriptor
  unfolding is_trusted
  merge_identity_context trusted variable headers a =
      map_identity_headers strip (is_trusted trusted variable) headers a

  unfoldable pub apply_identity_headers_to_envelope :
      Option Bool → Option String → Dict String → IntentEnvelope → IntentEnvelope
  unfolding is_trusted
  apply_identity_headers_to_envelope trusted variable headers e = record e {
    actor = map_identity_headers strip (is_trusted trusted variable) headers e.actor;
  }

-- The `authority_scope` of the provenance, if there is one.
abbrev authority_of : Option ProvenanceBlock → Option (List String)
authority_of none = none
authority_of (some p) = p.authority_scope

within_authority : List String → Option (List String) → List String
within_authority scopes none = scopes
within_authority scopes (some authority) = common scopes (unique authority)

unfoldable pub compute_effective_scope_set : IntentEnvelope → List String
unfolding within_authority unique
compute_effective_scope_set e = within_authority (unique e.actor.scopes) (authority_of e.provenance)

abbrev optional_value : Option String → Value
optional_value none = Value.null
optional_value (some t) = Value.str t

-- A field that is set only if it has a value.
abbrev field_if : {A : Type 0} → String → (A → Value) → Option A → Dict Value
field_if name value none = []
field_if name value (some a) = (name, value a) ∷ []

abbrev text_list : List String → Value
text_list ts = Value.list (items_of (map (λ t. Value.str t) ts))

unfoldable pub summarize_provenance : (Datetime → String) → IntentEnvelope → Dict Value
summarize_provenance isoformat e = elim e.provenance [
  | none ↦ []
  | some p ↦
      ("originator", optional_value p.originator)
      ∷ ("submitted_by", optional_value p.submitted_by)
      ∷ ("delegation_chain", text_list p.delegation_chain)
      ∷ ("delegation_depth", Value.int (pos (length p.delegation_chain)))
      ∷ (field_if "on_behalf_of" (λ t. Value.str t) p.on_behalf_of
          ++ field_if "delegation_purpose" (λ t. Value.str t) p.delegation_purpose
          ++ field_if "delegation_expiry" (λ x. Value.str (isoformat x)) p.delegation_expiry
          ++ field_if "authority_scope" text_list p.authority_scope)
]
