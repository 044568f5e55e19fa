-- ===== src/Sdk/Arguments.antt =====
-- The arguments of sip/sdk/builders.py and their checks. An enumeration may be given as a member or
-- as a text; the enumerations are texts themselves, and the call of one on its member gives the
-- member back. What Pydantic requires of a field is its minimum length.
pub mod Laws
use semantic_intent_protocol.Base.{
  string_eq, Value, is_blank, ◌==◌, Dict, if◌then◌else◌, ℕ, String, List, Option, none, some, [],
  ◌∷◌, Bool, Result, ok, err,
}
use semantic_intent_protocol.Envelope.Enums.{
  ActorType, DataSensitivity, DeterminismLevel, TargetType, TrustLevel,
}
use semantic_intent_protocol.Extensions.{validate_extension_keys, ExtensionError}

pub data EnumArgument (A : Type 0) : Type 0 where
  member : A → EnumArgument A
  text : String → EnumArgument A

-- Why a builder raises.
pub data BuildReason : Type 0 where
  no_enum_value : String → BuildReason
  blank_fields : List String → BuildReason
  extension_refused : ExtensionError → BuildReason

-- `SIPValidationError`, with the model that the message names.
pub record BuildError : Type 0 where
  pub model : String
  pub reason : BuildReason

-- The member with this value.
member_of : {A : Type 0} → (A → String) → List A → String → Option A
member_of value [] t = none
member_of value (a ∷ members) t =
    let rest = member_of value members t in if value a == t then some a else rest

found_member : {A : Type 0} → String → String → Option A → Result BuildError A
found_member model t none = err (record { model = model; reason = no_enum_value t })
found_member model t (some a) = ok a

-- `Enum(x) if isinstance(x, str) else x`
unfoldable pub enum_argument :
    {A : Type 0} → (A → String) → List A → String → EnumArgument A → Result BuildError A
unfolding found_member member_of
enum_argument value members model (member a) = ok a
enum_argument value members model (text t) = found_member model t (member_of value members t)

-- The fields that are blank.
abbrev pub blank_names : List (String × String) → List String
blank_names [] = []
blank_names ((name, t) ∷ fields) =
    let rest = blank_names fields in if is_blank t then name ∷ rest else rest

filled : String → List String → Result BuildError (Unit {0})
filled model [] = ok tt
filled model (name ∷ names) = err (record { model = model; reason = blank_fields (name ∷ names) })

-- The check of the fields with `min_length=1`.
unfoldable pub require_filled : String → List (String × String) → Result BuildError (Unit {0})
unfolding filled
require_filled model fields = filled model (blank_names fields)

allowed_keys : String → Result ExtensionError (Dict Value) → Result BuildError (Dict Value)
allowed_keys model (ok extensions) = ok extensions
allowed_keys model (err x) = err (record { model = model; reason = extension_refused x })

-- The validator of the field `extensions`.
unfoldable pub require_keys : String → Dict Value → Result BuildError (Dict Value)
unfolding allowed_keys
require_keys model extensions = allowed_keys model (validate_extension_keys extensions)

-- `xs or []`, and `d or {}`.
abbrev pub or_empty {ℓ} : {A : Type ℓ} → Option (List A) → List A
or_empty none = []
or_empty (some xs) = xs

abbrev pub actor_types : List ActorType
actor_types = ActorType.human ∷ ActorType.ai_agent ∷ ActorType.service ∷ ActorType.system ∷ []

abbrev pub trust_levels : List TrustLevel
trust_levels =
    TrustLevel.public ∷ TrustLevel.internal ∷ TrustLevel.privileged ∷ TrustLevel.admin ∷ []

abbrev pub target_types : List TargetType
target_types =
    TargetType.capability ∷ TargetType.agent ∷ TargetType.service ∷ TargetType.registry
    ∷ TargetType.broadcast ∷ []

abbrev pub sensitivities : List DataSensitivity
sensitivities =
    DataSensitivity.public ∷ DataSensitivity.internal ∷ DataSensitivity.confidential
    ∷ DataSensitivity.restricted ∷ []

abbrev pub determinism_levels : List DeterminismLevel
determinism_levels =
    DeterminismLevel.strict ∷ DeterminismLevel.bounded ∷ DeterminismLevel.advisory ∷ []

abbrev pub target_type_value : TargetType → String
target_type_value TargetType.capability = "capability"
target_type_value TargetType.agent = "agent"
target_type_value TargetType.service = "service"
target_type_value TargetType.registry = "registry"
target_type_value TargetType.broadcast = "broadcast"

abbrev pub sensitivity_value : DataSensitivity → String
sensitivity_value DataSensitivity.public = "public"
sensitivity_value DataSensitivity.internal = "internal"
sensitivity_value DataSensitivity.confidential = "confidential"
sensitivity_value DataSensitivity.restricted = "restricted"
