-- ===== src/Envelope/Validator/Accepted.antt =====
-- The protocol rules of sip/envelope/validator.py as a predicate, apart from the code that checks
-- them.
use semantic_intent_protocol.Base.{
  ◌≤◌, ◌<◌, ◌+◌, String, ◌≡◌, Option, none, some, List, In, length, ℤ, pos, negsuc, pos_part,
  neg_part, Float, is_below_zero, false,
}
use semantic_intent_protocol.Envelope.Enums.{OperationClass, TrustLevel, trust_order}
use semantic_intent_protocol.Envelope.Models.{
  IntentEnvelope, ProvenanceBlock, utc_instant, Datetime,
}

-- All elements of the first list are in the second.
abbrev pub IsSubset : List String → List String → Type 0
IsSubset xs ys = (a : String) → In a xs → In a ys

abbrev pub AreDisjoint : List String → List String → Type 0
AreDisjoint xs ys = (a : String) → In a xs → In a ys → ⊥

abbrev pub IsOptionalNonNegative : Option ℤ → Type 0
IsOptionalNonNegative none = Unit
IsOptionalNonNegative (some (pos n)) = Unit
IsOptionalNonNegative (some (negsuc n)) = ⊥

abbrev pub IsOptionalNotBelowZero : Option Float → Type 0
IsOptionalNotBelowZero none = Unit
IsOptionalNotBelowZero (some c) = is_below_zero c ≡ false

-- Writing and executing want at least the internal level.
abbrev pub MayOperate : OperationClass → TrustLevel → Type 0
MayOperate OperationClass.write t = trust_order TrustLevel.internal ≤ trust_order t
MayOperate OperationClass.execute t = trust_order TrustLevel.internal ≤ trust_order t
MayOperate _ t = Unit

abbrev pub IsUnexpired : ℤ → Option Datetime → Type 0
IsUnexpired now none = Unit
IsUnexpired now (some x) =
    pos_part now + neg_part (utc_instant x) < pos_part (utc_instant x) + neg_part now

abbrev pub IsSubmitter : String → Option String → Type 0
IsSubmitter actor none = Unit
IsSubmitter actor (some s) = s ≡ actor

abbrev pub IsGrantWithin : List String → Option (List String) → Type 0
IsGrantWithin held none = Unit
IsGrantWithin held (some scopes) = IsSubset scopes held

pub record IsProvenanceAccepted (now : ℤ) (e : IntentEnvelope) (p : ProvenanceBlock) : Type 0 where
  pub depth : length p.delegation_chain ≤ 5
  pub unexpired : IsUnexpired now p.delegation_expiry
  pub submitter : IsSubmitter e.actor.actor_id p.submitted_by
  pub grant : IsGrantWithin e.actor.scopes p.authority_scope

abbrev pub IsOptionalProvenanceAccepted : ℤ → IntentEnvelope → Option ProvenanceBlock → Type 0
IsOptionalProvenanceAccepted now e none = Unit
IsOptionalProvenanceAccepted now e (some p) = IsProvenanceAccepted now e p

-- What an envelope has to satisfy at the time `now`.
pub record IsAccepted (now : ℤ) (e : IntentEnvelope) : Type 0 where
  pub version : e.sip_version ≡ "0.1"
  pub declared : trust_order e.trust.declared_trust_level ≤ trust_order e.actor.trust_level
  pub time_budget : IsOptionalNonNegative e.constraints.time_budget_ms
  pub cost_budget : IsOptionalNotBelowZero e.constraints.cost_budget
  pub actions : AreDisjoint e.constraints.allowed_actions e.constraints.forbidden_actions
  pub operation : MayOperate e.intent.operation_class e.actor.trust_level
  pub provenance : IsOptionalProvenanceAccepted now e e.provenance
