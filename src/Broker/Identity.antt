-- ===== src/Broker/Identity.antt =====
-- The identity headers (sip/broker/identity.py). Python's `str.strip` is a parameter.
pub mod Overrides
use semantic_intent_protocol.Base.{
  some, [], split_on, map, keep_if, ◌&&◌, is_blank, not, string_eq, ◌==◌, contains, if◌then◌else◌,
  is_empty, lookup, ◌∷◌, none, Bool, String, List, Option, Dict,
}
use semantic_intent_protocol.Envelope.Enums.{ActorType, TrustLevel}
use semantic_intent_protocol.Envelope.Models.{ActorDescriptor}
use semantic_intent_protocol.Envelope.Validator.{excess}

-- `is_trusted_identity_enabled`, for the value of the environment variable.
unfoldable pub is_trusted_identity_enabled : (String → String) → Option String → Bool
is_trusted_identity_enabled lower variable =
    let setting : String = elim variable [ none ↦ "false" | some t ↦ t ] in
    contains {A = String} ("1" ∷ "true" ∷ "yes" ∷ []) (lower setting)

-- `ActorType(text)`, where it does not raise.
pub actor_type_of : String → Option ActorType
actor_type_of t =
    if t == "human"
    then some ActorType.human
    else if t == "ai_agent"
    then some ActorType.ai_agent
    else if t == "service"
    then some ActorType.service
    else if t == "system"
    then some ActorType.system
    else none

-- `TrustLevel(text)`, where it does not raise.
pub trust_level_of : String → Option TrustLevel
trust_level_of t =
    if t == "public"
    then some TrustLevel.public
    else if t == "internal"
    then some TrustLevel.internal
    else if t == "privileged"
    then some TrustLevel.privileged
    else if t == "admin"
    then some TrustLevel.admin
    else none

-- `set(xs) == set(ys)`
abbrev pub is_same_set : List String → List String → Bool
is_same_set xs ys = is_empty (excess xs ys) && is_empty (excess ys xs)

-- The value after the update of a field with a text, if the header has one.
pub text_update : String → String → String
text_update header old = if not (is_blank header) && not (header == old) then header else old

-- The value after the update with a value that the header's text may name. What is equal to the
-- old value is not updated, which gives the same.
pub value_update {ℓ} : {A : Type ℓ} → String → Option A → A → A
value_update header named old =
    if is_blank header then old else elim named [ none ↦ old | some v ↦ v ]

pub scopes_update : List String → List String → List String
scopes_update given old = if not (is_empty given) && not (is_same_set given old) then given else old

module _ (strip : String → String) where
  -- `headers.get(name, "").strip()`
  abbrev pub header : Dict String → String → String
  header headers name = strip (elim (lookup name headers) [ none ↦ "" | some t ↦ t ])

  -- `[s.strip() for s in text.split(",") if s.strip()]`: the code of a comma is 44.
  pub scopes_in : String → List String
  scopes_in text =
      if is_blank text then [] else keep_if (λ s. not (is_blank s)) (map strip (split_on 44 text))

  -- `map_identity_headers`, with `trusted` decided.
  unfoldable pub map_identity_headers : Bool → Dict String → ActorDescriptor → ActorDescriptor
  unfolding actor_type_of trust_level_of text_update value_update scopes_update scopes_in
  map_identity_headers trusted headers a = if not trusted then a else record {
    actor_id = text_update (header headers "x-actor-id") a.actor_id;
    actor_type =
        value_update (header headers "x-actor-type") (actor_type_of (header headers "x-actor-type"))
          a.actor_type;
    name = text_update (header headers "x-actor-name") a.name;
    trust_level =
        value_update (header headers "x-trust-level")
          (trust_level_of (header headers "x-trust-level")) a.trust_level;
    scopes = scopes_update (scopes_in (header headers "x-scopes")) a.scopes;
  }
