-- ===== src/Sdk/Arguments/Laws.antt =====
-- When the checks of the arguments (sip/sdk/builders.py) pass.
use mathlib.Core.Path.{subst}
use semantic_intent_protocol.Base.{
  [], refl, string_eq, if-false, eq_iff, true_ne_false, if-true, ◌∙◌, sym, ◌==◌, Bool-cases, ap,
  Option, Value, err, ◌≡◌, Dict, In, ok, ◌↔◌, List, Result, ◌∷◌, none, some, inl, inr, String,
  ◌>>=◌,
}
use semantic_intent_protocol.Extensions.{ExtensionError, validate_extension_keys}
use semantic_intent_protocol.Sdk.Arguments.{
  text, allowed_keys, blank_names, filled, found_member, member, member_of, EnumArgument,
  enum_argument, require_filled, require_keys,
}

-- The argument is a member, or the text of one.
abbrev pub NamesMember : {A : Type 0} → (A → String) → EnumArgument A → Type 0
NamesMember value (member a) = Unit
NamesMember {A} value (text t) = (a : A) × (value a ≡ t)

-- There is a result.
abbrev pub Succeeds : {E A : Type 0} → Result E A → Type 0
Succeeds (ok a) = Unit
Succeeds (err x) = ⊥

-- A chain succeeds if its first step does, and what follows does for any value.
pub Succeeds-bind :
    {E A B : Type 0} (r : Result E A) (f : A → Result E B) (P Q : Type 0)
    → Succeeds r ↔ P
    → ((a : A) → Succeeds (f a) ↔ Q)
    → Succeeds (r >>= f) ↔ (P × Q)
Succeeds-bind (ok a) f P Q first rest = (λ h. (first.0 tt, (rest a).0 h), λ (p, q). (rest a).1 q)
Succeeds-bind (err x) f P Q first rest = (λ h. absurd h, λ (p, q). first.1 p)

module _ {A : Type 0} (value : A → String) where
  member_of_sound :
      (members : List A) (t : String) (a : A) → member_of value members t ≡ some a → value a ≡ t
  unfolding member_of
  member_of_sound [] t a h = cc
  member_of_sound (b ∷ members) t a h = elim (Bool-cases (value b == t)) [
    | inl same ↦
        let first : some b ≡ some a = sym (if-true (value b == t) _ _ same) ∙ h in
        let equal : b ≡ a = cc in subst (λ c. value c ≡ t) equal ((eq_iff (value b) t).0 same)
    | inr other ↦ member_of_sound members t a (sym (if-false (value b == t) _ _ other) ∙ h)
  ]

  member_of_complete :
      (members : List A) (a : A)
      → In a members
      → (b : A) × (member_of value members (value a) ≡ some b)
  unfolding member_of
  member_of_complete [] a m = absurd m
  member_of_complete (b ∷ members) a m = elim (Bool-cases (value b == value a)) [
    | inl same ↦ (b, if-true (value b == value a) _ _ same)
    | inr other ↦ elim m [
      | inl h ↦
          absurd (true_ne_false (sym ((eq_iff (value b) (value a)).1 (ap value (sym h))) ∙ other))
      | inr later ↦
          let (c, found) = member_of_complete members a later in
          (c, if-false (value b == value a) _ _ other ∙ found)
    ]
  ]

  found-Succeeds :
      (model t : String) (o : Option A)
      → Succeeds (found_member model t o) ↔ ((b : A) × (o ≡ some b))
  unfolding found_member
  found-Succeeds model t none = (λ h. absurd h, λ (b, h). cc)
  found-Succeeds model t (some a) = (λ h. (a, refl), λ h. tt)

  pub enum_argument-Succeeds :
      (members : List A)
      → ((a : A) → In a members)
      → (model : String) (x : EnumArgument A)
      → Succeeds (enum_argument value members model x) ↔ NamesMember value x
  unfolding enum_argument
  enum_argument-Succeeds members all model (member a) = (λ h. tt, λ h. tt)
  enum_argument-Succeeds members all model (text t) = (
    λ h.
        let (a, found) = (found-Succeeds model t (member_of value members t)).0 h in
        (a, member_of_sound members t a found),
    λ (a, h).
        let (b, found) = member_of_complete members a (all a) in
        (found-Succeeds model t (member_of value members t)).1
          (b, ap (member_of value members) (sym h) ∙ found),
  )

-- No field is blank.
abbrev pub AreFilled : List (String × String) → Type 0
AreFilled fields = blank_names fields ≡ []

filled-Succeeds :
    (model : String) (names : List String) → Succeeds (filled model names) ↔ (names ≡ [])
unfolding filled
filled-Succeeds model [] = (λ h. refl, λ h. tt)
filled-Succeeds model (name ∷ names) = (λ h. absurd h, λ h. cc)

pub require_filled-Succeeds :
    (model : String) (fields : List (String × String))
    → Succeeds (require_filled model fields) ↔ AreFilled fields
unfolding require_filled
require_filled-Succeeds model fields = filled-Succeeds model (blank_names fields)

allowed-Succeeds :
    (model : String) (d : Dict Value) (r : Result ExtensionError (Dict Value))
    → Succeeds (allowed_keys model r) ↔ Succeeds r
unfolding allowed_keys
allowed-Succeeds model d (ok extensions) = (λ h. h, λ h. h)
allowed-Succeeds model d (err x) = (λ h. h, λ h. h)

pub require_keys-Succeeds :
    (model : String) (d : Dict Value)
    → Succeeds (require_keys model d) ↔ Succeeds (validate_extension_keys d)
unfolding require_keys
require_keys-Succeeds model d = allowed-Succeeds model d (validate_extension_keys d)
