-- ===== src/Broker/Identity/Overrides.antt =====
-- What the identity headers do to an actor.
use mathlib.Core.Path.{sym, subst}
use semantic_intent_protocol.Base.{
  refl, none, true, ◌&&◌, eq_iff, Bool-cases, arith, if◌then◌else◌, is_blank, is_empty, ◌≡◌, some,
  false, inl, inr, Bool, String, List, Option, Dict,
}
use semantic_intent_protocol.Broker.Identity.{
  scopes_in, header, map_identity_headers, is_same_set, value_update, actor_type_of, scopes_update,
  text_update, trust_level_of,
}
use semantic_intent_protocol.Envelope.Enums.{
  actor_type_value, trust_level_value, ActorType, TrustLevel,
}
use semantic_intent_protocol.Envelope.Models.{ActorDescriptor}
use semantic_intent_protocol.Envelope.Validator.{excess}
use semantic_intent_protocol.Envelope.Validator.Accepted.{IsSubset}
use semantic_intent_protocol.Envelope.Validator.Judges.{excess-empty}

text_update_lem : (h old : String) → text_update h old ≡ (if is_blank h then old else h)
unfolding text_update
text_update_lem h old = ground (arith, eq_iff h old)

-- The type or level that a text names, by a function that writes its name.
module _ {A : Type 0} (value : A → String) (parse : String → Option A)
    (parse-value : (a : A) → parse (value a) ≡ some a)
    (value-parse : (t : String) (a : A) → parse t ≡ some a → t ≡ value a)
    (value_filled : (a : A) → is_blank (value a) ≡ false) where
  value_update-named : (h : String) (a old : A) → h ≡ value a → value_update h (parse h) old ≡ a
  unfolding value_update
  value_update-named h a old e =
      subst (λ t. value_update t (parse t) old ≡ a) (sym e)
        (rw (value_filled a) (rw (parse-value a) refl))

  value_update-unnamed :
      (h : String) (old : A) → ((a : A) → h ≡ value a → ⊥) → value_update h (parse h) old ≡ old
  unfolding value_update
  value_update-unnamed h old other = by_parse (parse h) refl
    where
      by_parse :
          (o : Option A)
          → parse h ≡ o
          → (if is_blank h then old else elim o [ none ↦ old | some v ↦ v ]) ≡ old
      by_parse none e = ground arith
      by_parse (some a) e = absurd (other a (value-parse h a e))

actor_type_of-value : (a : ActorType) → actor_type_of (actor_type_value a) ≡ some a
unfolding actor_type_of
actor_type_of-value ActorType.human = refl
actor_type_of-value ActorType.ai_agent = refl
actor_type_of-value ActorType.service = refl
actor_type_of-value ActorType.system = refl

actor_type_of-some :
    (t : String) (a : ActorType) → actor_type_of t ≡ some a → t ≡ actor_type_value a
unfolding actor_type_of
actor_type_of-some t a h =
    ground (arith, eq_iff t "human", eq_iff t "ai_agent", eq_iff t "service", eq_iff t "system")

trust_level_of-value : (a : TrustLevel) → trust_level_of (trust_level_value a) ≡ some a
unfolding trust_level_of
trust_level_of-value TrustLevel.public = refl
trust_level_of-value TrustLevel.internal = refl
trust_level_of-value TrustLevel.privileged = refl
trust_level_of-value TrustLevel.admin = refl

trust_level_of-some :
    (t : String) (a : TrustLevel) → trust_level_of t ≡ some a → t ≡ trust_level_value a
unfolding trust_level_of
trust_level_of-some t a h =
    ground (arith, eq_iff t "public", eq_iff t "internal", eq_iff t "privileged", eq_iff t "admin")

filled_type : (a : ActorType) → is_blank (actor_type_value a) ≡ false
filled_type ActorType.human = refl
filled_type ActorType.ai_agent = refl
filled_type ActorType.service = refl
filled_type ActorType.system = refl

filled_level : (a : TrustLevel) → is_blank (trust_level_value a) ≡ false
filled_level TrustLevel.public = refl
filled_level TrustLevel.internal = refl
filled_level TrustLevel.privileged = refl
filled_level TrustLevel.admin = refl

-- The same texts, in any order and number.
abbrev pub HaveSameElements : List String → List String → Type 0
HaveSameElements xs ys = IsSubset xs ys × IsSubset ys xs

scopes_update-given :
    (given old : List String)
    → is_empty given ≡ false
    → HaveSameElements (scopes_update given old) given
unfolding scopes_update
scopes_update-given given old h = elim (Bool-cases (is_same_set given old)) [
  | inl same ↦
      let kept : scopes_update given old ≡ old = ground (arith, h, same) in
      let (one, two) = both_true (is_empty (excess given old)) (is_empty (excess old given)) same in
      subst (λ x. HaveSameElements x given) (sym kept)
        ((excess-empty old given).0 two, (excess-empty given old).0 one)
  | inr differs ↦
      let taken : scopes_update given old ≡ given = ground (arith, h, differs) in
      subst (λ x. HaveSameElements x given) (sym taken) (λ a m. m, λ a m. m)
]
  where
    both_true : (a b : Bool) → (a && b) ≡ true → (a ≡ true) × (b ≡ true)
    both_true a b e = ground arith

scopes_update-none :
    (given old : List String) → is_empty given ≡ true → scopes_update given old ≡ old
unfolding scopes_update
scopes_update-none given old h = ground (arith, h)

module _ (strip : String → String) (headers : Dict String) (a : ActorDescriptor) where
  -- What an actor has to be after the mapping: a header that names a value decides the field, any
  -- other leaves it as it was.
  pub record IsMapped (x : ActorDescriptor) : Type 0 where
    pub actor_id : x.actor_id ≡ (
        if is_blank (header strip headers "x-actor-id")
        then a.actor_id
        else header strip headers "x-actor-id")
    pub name : x.name ≡ (
        if is_blank (header strip headers "x-actor-name")
        then a.name
        else header strip headers "x-actor-name")
    pub actor_type :
        (t : ActorType)
        → header strip headers "x-actor-type" ≡ actor_type_value t
        → x.actor_type ≡ t
    pub other_type :
        ((t : ActorType) → header strip headers "x-actor-type" ≡ actor_type_value t → ⊥)
        → x.actor_type ≡ a.actor_type
    pub trust_level :
        (t : TrustLevel)
        → header strip headers "x-trust-level" ≡ trust_level_value t
        → x.trust_level ≡ t
    pub other_level :
        ((t : TrustLevel) → header strip headers "x-trust-level" ≡ trust_level_value t → ⊥)
        → x.trust_level ≡ a.trust_level
    pub scopes :
        is_empty (scopes_in strip (header strip headers "x-scopes")) ≡ false
        → HaveSameElements x.scopes (scopes_in strip (header strip headers "x-scopes"))
    pub no_scopes :
        is_empty (scopes_in strip (header strip headers "x-scopes")) ≡ true → x.scopes ≡ a.scopes

  pub map_identity_headers-IsMapped :
      (map_identity_headers strip false headers a ≡ a)
      × IsMapped (map_identity_headers strip true headers a)
  unfolding map_identity_headers
  map_identity_headers-IsMapped = (
    refl,
    record {
      actor_id = text_update_lem (header strip headers "x-actor-id") a.actor_id;
      name = text_update_lem (header strip headers "x-actor-name") a.name;
      actor_type = λ t h.
          value_update-named actor_type_value actor_type_of actor_type_of-value actor_type_of-some
            filled_type (header strip headers "x-actor-type") t a.actor_type h;
      other_type = λ h.
          value_update-unnamed actor_type_value actor_type_of actor_type_of-value actor_type_of-some
            filled_type (header strip headers "x-actor-type") a.actor_type h;
      trust_level = λ t h.
          value_update-named trust_level_value trust_level_of trust_level_of-value
            trust_level_of-some filled_level (header strip headers "x-trust-level") t a.trust_level
            h;
      other_level = λ h.
          value_update-unnamed trust_level_value trust_level_of trust_level_of-value
            trust_level_of-some filled_level (header strip headers "x-trust-level") a.trust_level h;
      scopes =
          λ h. scopes_update-given (scopes_in strip (header strip headers "x-scopes")) a.scopes h;
      no_scopes =
          λ h. scopes_update-none (scopes_in strip (header strip headers "x-scopes")) a.scopes h;
    },
  )
