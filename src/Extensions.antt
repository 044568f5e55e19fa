-- ===== src/Extensions.antt =====
-- The extension keys (sip/extensions.py). The pattern of the keys is a function on the codes of the
-- characters; with IGNORECASE a letter is one of the 52 of ASCII or of four others.
pub mod Keys
pub mod Form
use Prim.Native.Char.{Char, code}
use semantic_intent_protocol.Base.{
  false, [], string_eq, err, contains, is_blank, ok, ◌>>=◌, Result, if◌then◌else◌, leb, nat_eqb,
  not, ◌&&◌, ◌||◌, ◌∷◌, true, ℕ, Bool, String, List, Dict, Value,
}

abbrev pub reserved_core_fields : List String
reserved_core_fields =
    "sip_version" ∷ "message_type" ∷ "intent_id" ∷ "trace_id" ∷ "span_id" ∷ "timestamp" ∷ "actor"
    ∷ "target" ∷ "intent" ∷ "desired_outcome" ∷ "constraints" ∷ "context"
    ∷ "capability_requirements" ∷ "trust" ∷ "protocol_bindings" ∷ "negotiation" ∷ "integrity"
    ∷ "provenance" ∷ "capability_id" ∷ "name" ∷ "description" ∷ "provider" ∷ "intent_domains"
    ∷ "input_schema" ∷ "output_schema" ∷ "operation_class" ∷ "risk_level" ∷ "required_scopes"
    ∷ "minimum_trust_tier" ∷ "supported_bindings" ∷ "execution" ∷ "examples" ∷ "tags"
    ∷ "ranked_candidates" ∷ "selected_capability" ∷ "selection_rationale" ∷ "requires_clarification"
    ∷ "clarification_questions" ∷ "allowed_bindings" ∷ "selected_binding" ∷ "policy_decision"
    ∷ "plan_id" ∷ "grounded_parameters" ∷ "execution_steps" ∷ "policy_checks_passed"
    ∷ "approval_required" ∷ "trace" ∷ "provenance_summary" ∷ "deterministic_target" ∷ "audit_id"
    ∷ "actor_id" ∷ "actor_type" ∷ "intent_name" ∷ "intent_domain" ∷ "selected_capability_id"
    ∷ "action_taken" ∷ "policy_allowed" ∷ "approval_state" ∷ "outcome_summary" ∷ "notes"
    ∷ "originator" ∷ "submitting_actor" ∷ "delegation_chain" ∷ "extensions" ∷ []

abbrev between : ℕ → ℕ → ℕ → Bool
between low high n = leb low n && leb n high

-- `[a-z]` with IGNORECASE, which also matches U+0130, U+0131, U+017F and U+212A.
abbrev is_letter : ℕ → Bool
is_letter n =
    between 97 122 n
    || (between 65 90 n || (nat_eqb n 304 || (nat_eqb n 305 || (nat_eqb n 383 || nat_eqb n 8490))))

-- `[a-z0-9_]`
abbrev is_word : ℕ → Bool
is_word n = is_letter n || (between 48 57 n || nat_eqb n 95)

-- Each character passes, and there is one.
abbrev is_all_of : (ℕ → Bool) → String → Bool
is_all_of p String.[] = true
is_all_of p (String.◌∷◌ c s) = p (code c) && is_all_of p s

abbrev is_some_of : (ℕ → Bool) → String → Bool
is_some_of p s = not (is_blank s) && is_all_of p s

-- `[a-z0-9_]*\.[a-z0-9_.]+`
pub is_vendor_rest : String → Bool
is_vendor_rest String.[] = false
is_vendor_rest (String.◌∷◌ c s) =
    let rest = is_vendor_rest s in
    if nat_eqb (code c) 46
    then is_some_of (λ n. is_word n || nat_eqb n 46) s
    else is_word (code c) && rest

-- `_[a-z0-9_]+`
pub is_private_rest : String → Bool
is_private_rest String.[] = false
is_private_rest (String.◌∷◌ c s) = nat_eqb (code c) 95 && is_some_of is_word s

-- `x_[a-z0-9_]+` or `[a-z][a-z0-9_]*\.[a-z0-9_.]+`
pub is_key : String → Bool
unfolding is_vendor_rest is_private_rest
is_key String.[] = false
is_key (String.◌∷◌ c s) =
    ((nat_eqb (code c) 120 || nat_eqb (code c) 88) && is_private_rest s)
    || (is_letter (code c) && is_vendor_rest s)

-- The `$` of the pattern also matches before a newline at the end.
pub drop_newline : String → String
drop_newline String.[] = String.[]
drop_newline (String.◌∷◌ c s) =
    let rest = drop_newline s in
    if is_blank s && nat_eqb (code c) 10 then String.[] else String.◌∷◌ c rest

-- `_EXTENSION_KEY_RE.match(key)`
unfoldable pub matches_pattern : String → Bool
unfolding is_key drop_newline
matches_pattern key = is_key (drop_newline key)

pub data ExtensionError : Type 0 where
  reserved_key invalid_key : String → ExtensionError

pub check_keys : Dict Value → Result ExtensionError (Unit {0})
unfolding matches_pattern
check_keys [] = ok tt
check_keys ((key, v) ∷ extensions) =
    let rest = check_keys extensions in
    if contains reserved_core_fields key
    then err (reserved_key key)
    else if not (matches_pattern key)
    then err (invalid_key key)
    else rest

unfoldable pub validate_extension_keys : Dict Value → Result ExtensionError (Dict Value)
unfolding check_keys
validate_extension_keys extensions = check_keys extensions >>= λ u. ok extensions
