-- ===== src/Sdk/Helpers/Scopes.antt =====
-- The scopes of `compute_effective_scope_set` (sip/sdk/helpers.py), against those that the policy
-- engine checks.
use mathlib.Core.Path.{subst}
use semantic_intent_protocol.Base.{
  true, refl, string_eq, contains→In, if-false, In→contains, if-true, keep_if-In, In-keep_if,
  contains, is_empty, Bool-cases, ◌↔◌, In, sym, ◌≡◌, false, inl, inr, String, List, Option, none,
  some, [], ◌∷◌, Bool,
}
use semantic_intent_protocol.Envelope.Models.{ProvenanceBlock, IntentEnvelope}
use semantic_intent_protocol.Envelope.Validator.{unique}
use semantic_intent_protocol.Policy.Engine.{compute_effective_scopes, scopes_to_check}
use semantic_intent_protocol.Policy.Rules.{check_scopes-empty, check_scopes}
use semantic_intent_protocol.Sdk.Helpers.{
  authority_of, within_authority, compute_effective_scope_set,
}

unique-In : (a : String) (xs : List String) → In a (unique xs) → In a xs
unfolding unique
unique-In a [] m = absurd m
unique-In a (x ∷ xs) m = elim (Bool-cases (contains xs x)) [
  | inl twice ↦ inr (unique-In a xs (subst (In a) (if-true (contains xs x) _ _ twice) m))
  | inr once ↦ elim (subst (In a) (if-false (contains xs x) _ _ once) m) [
    | inl h ↦ inl h
    | inr k ↦ inr (unique-In a xs k)
  ]
]

In-unique : (a : String) (xs : List String) → In a xs → In a (unique xs)
unfolding unique
In-unique a [] m = absurd m
In-unique a (x ∷ xs) m = elim (Bool-cases (contains xs x)) [
  | inl twice ↦ subst (In a) (sym (if-true (contains xs x) _ _ twice)) (elim m [
    | inl h ↦ In-unique a xs (subst (λ y. In y xs) (sym h) (contains→In xs x twice))
    | inr k ↦ In-unique a xs k
  ])
  | inr once ↦
      subst (In a) (sym (if-false (contains xs x) _ _ once))
        (elim m [ inl h ↦ inl h | inr k ↦ inr (In-unique a xs k) ])
]

In-within_authority :
    (a : String) (scopes : List String) (o : Option (List String))
    → In a (within_authority (unique scopes) o) ↔ In a (compute_effective_scopes scopes o)
unfolding within_authority compute_effective_scopes
In-within_authority a scopes none = (unique-In a scopes, In-unique a scopes)
In-within_authority a scopes (some authority) = (
  λ m.
      let (held, granted) = In-keep_if (contains (unique authority)) a (unique scopes) m in
      keep_if-In (contains authority) a scopes (unique-In a scopes held) (
        In→contains authority a (unique-In a authority (contains→In (unique authority) a granted))),
  λ m.
      let (held, granted) = In-keep_if (contains authority) a scopes m in
      keep_if-In (contains (unique authority)) a (unique scopes) (In-unique a scopes held) (
        In→contains (unique authority) a (In-unique a authority (contains→In authority a granted))),
)

In-optional :
    (a : String) (scopes : List String) (o : Option ProvenanceBlock)
    → In a (within_authority (unique scopes) (authority_of o))
      ↔ In a (elim o [ none ↦ scopes | some p ↦ compute_effective_scopes scopes p.authority_scope ])
unfolding within_authority
In-optional a scopes none = (unique-In a scopes, In-unique a scopes)
In-optional a scopes (some p) = In-within_authority a scopes p.authority_scope

In-compute_effective_scope_set :
    (e : IntentEnvelope) (a : String)
    → In a (compute_effective_scope_set e) ↔ In a (scopes_to_check e)
unfolding compute_effective_scope_set scopes_to_check
In-compute_effective_scope_set e a = In-optional a e.actor.scopes e.provenance

Bool-same : (a b : Bool) → (a ≡ true → b ≡ true) → (b ≡ true → a ≡ true) → a ≡ b
Bool-same true b there back = sym (there refl)
Bool-same false true there back = back refl
Bool-same false false there back = refl

-- The scopes that the SDK computes for an envelope are those that the policy engine checks, and a
-- capability's required scopes are all among the ones exactly if they are among the others.
pub compute_effective_scope_set-scopes_to_check :
    (e : IntentEnvelope) (required : List String)
    → ((a : String) → In a (compute_effective_scope_set e) ↔ In a (scopes_to_check e))
      × (is_empty (check_scopes required (compute_effective_scope_set e))
          ≡ is_empty (check_scopes required (scopes_to_check e)))
compute_effective_scope_set-scopes_to_check e required =
    let (foretold, held) = check_scopes-empty required (compute_effective_scope_set e) in
    let (checked, granted) = check_scopes-empty required (scopes_to_check e) in
    (
      In-compute_effective_scope_set e,
      Bool-same (is_empty (check_scopes required (compute_effective_scope_set e)))
          (is_empty (check_scopes required (scopes_to_check e)))
          (λ h. granted (λ a m. (In-compute_effective_scope_set e a).0 (foretold h a m)))
          (λ h. held (λ a m. (In-compute_effective_scope_set e a).1 (checked h a m))),
    )
