-- ===== src/Envelope/Validator/Provenance.antt =====
-- What the checks of the provenance block decide.
use semantic_intent_protocol.Base.{
  ◌==◌, leb_ℤ, length, ltb, ℕ, none, some, le→ltb-false, ltb-false→le, ℤ, ◌≤◌, Option, eq_iff,
  String, ◌≡◌, refl, Bool, false, not, List, is_empty, string_eq, arith,
}
use semantic_intent_protocol.Envelope.Enums.{binding_eq, operation_eq, determinism_eq}
use semantic_intent_protocol.Envelope.Models.{
  utc_instant, Datetime, ProvenanceBlock, IntentEnvelope,
}
use semantic_intent_protocol.Envelope.Validator.{
  has_expired, sorted_set, check_optional_provenance, check_provenance, ValidationError, reject_if,
  excess,
}
use semantic_intent_protocol.Envelope.Validator.Accepted.{
  IsOptionalProvenanceAccepted, IsProvenanceAccepted, IsUnexpired, IsGrantWithin, IsSubmitter,
}
use semantic_intent_protocol.Envelope.Validator.Judges.{
  then-Judges, iff-Judges, excess-empty, reject_if-Judges, unchanged-Judges, Judges,
}

pub depth-Judges :
    (n : ℕ) → Judges (n ≤ 5) (reject_if (ltb 5 n) (ValidationError.delegation_chain_too_long n))
depth-Judges n = reject_if-Judges _ _ (ltb-false→le 5 n) (le→ltb-false 5 n)

pub expiry-Judges :
    (now : ℤ) (p : ProvenanceBlock)
    → Judges
        (IsUnexpired now p.delegation_expiry)
        (reject_if (has_expired now p) ValidationError.delegation_expired)
expiry-Judges now p =
    reject_if-Judges _ _ (sound p.delegation_expiry) (complete p.delegation_expiry)
  where
    late : Option Datetime → Bool
    late o = elim o [ none ↦ false | some x ↦ leb_ℤ (utc_instant x) now ]

    sound : (o : Option Datetime) → late o ≡ false → IsUnexpired now o
    sound none h = tt
    sound (some x) h = ground arith

    complete : (o : Option Datetime) → IsUnexpired now o → late o ≡ false
    complete none h = refl
    complete (some x) h = ground arith

pub IsSubmitter-Judges :
    (actor : String) (o : Option String)
    → Judges (IsSubmitter actor o) (λ r. elim o [
      | none ↦ r
      | some s ↦ reject_if (not (s == actor)) (ValidationError.submitter_mismatch s actor) r
    ])
IsSubmitter-Judges actor none = unchanged-Judges
IsSubmitter-Judges actor (some s) =
    reject_if-Judges _ _ (λ h. ground (arith, eq_iff s actor)) (λ h. ground (arith, eq_iff s actor))

pub grant-Judges :
    (held : List String) (o : Option (List String))
    → Judges (IsGrantWithin held o) (λ r. elim o [
      | none ↦ r
      | some scopes ↦
          reject_if
            (not (is_empty (excess scopes held)))
            (ValidationError.excess_authority (sorted_set (excess scopes held)))
            r
    ])
grant-Judges held none = unchanged-Judges
grant-Judges held (some scopes) =
    let (within, empty) = excess-empty scopes held in
    reject_if-Judges _ _ (λ h. within (ground arith)) (λ p. rw (empty p))

pub check_provenance-Judges :
    (now : ℤ) (e : IntentEnvelope) (p : ProvenanceBlock)
    → Judges (IsProvenanceAccepted now e p) (check_provenance now e p)
unfolding check_provenance
check_provenance-Judges now e p =
    iff-Judges
      (
        λ (((d, x), s), g). record { depth = d; unexpired = x; submitter = s; grant = g },
        λ a. (((a.depth, a.unexpired), a.submitter), a.grant),
      )
      (then-Judges
        (then-Judges (then-Judges (depth-Judges (length p.delegation_chain)) (expiry-Judges now p))
          (IsSubmitter-Judges e.actor.actor_id p.submitted_by))
        (grant-Judges e.actor.scopes p.authority_scope))

pub check_optional_provenance-Judges :
    (now : ℤ) (e : IntentEnvelope)
    → Judges (IsOptionalProvenanceAccepted now e e.provenance) (check_optional_provenance now e)
unfolding check_optional_provenance
check_optional_provenance-Judges now e = go e.provenance
  where
    go :
        (o : Option ProvenanceBlock)
        → Judges
            (IsOptionalProvenanceAccepted now e o)
            (λ r. elim o [ none ↦ r | some p ↦ check_provenance now e p r ])
    go none = unchanged-Judges
    go (some p) = check_provenance-Judges now e p
