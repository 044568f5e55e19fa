-- ===== src/Sdk/Serialization/Laws.antt =====
-- Parsing what was written (sip/sdk/serialization.py), and what a failed parse carries.
use semantic_intent_protocol.Base.{
  refl, ok_ne_err, ap, ◌∙◌, sym, ◌≡◌, String, Value, Result, ok, err,
}
use semantic_intent_protocol.Sdk.Errors.{SipError}
use semantic_intent_protocol.Sdk.Serialization.{judged, judged_json, parse_failure, parse_model}
use semantic_intent_protocol.Wire.{IsDumped, Schema, Json}

-- A parse fails with a message that names the label, and with no list of errors.
abbrev pub IsParseFailure : String → SipError → Type 0
IsParseFailure label x = (reason : String) × (x ≡ parse_failure label reason)

-- What a parse of the value goes by: the value of the text, or the value itself.
abbrev pub source_of : Json → Value → Result String Value
source_of J (Value.str t) = J.loads t
source_of J v = ok v

module _ {A : Type 0} (J : Json) (S : Schema A) (label : String) where
  pub parse-dump : (a : A) → IsDumped S a → parse_model J S label (S.model_dump a) ≡ ok a
  unfolding parse_model
  parse-dump a dumped =
      let (fields, dict) = dumped.dump-dict in
      ap (parse_model J S label) dict
      ∙ ap (judged label) (ap S.model_validate (sym dict) ∙ dumped.validate-dump)

  parse-source : (v : Value) → parse_model J S label v ≡ judged_json S label (source_of J v)
  unfolding parse_model judged_json
  parse-source (Value.str t) = refl
  parse-source Value.null = refl
  parse-source (Value.bool b) = refl
  parse-source (Value.int n) = refl
  parse-source (Value.float n) = refl
  parse-source (Value.list vs) = refl
  parse-source (Value.dict fs) = refl

  judged_fails :
      (r : Result String A) (x : SipError) → judged label r ≡ err x → IsParseFailure label x
  unfolding judged
  judged_fails (ok b) x h = absurd (ok_ne_err h)
  judged_fails (err reason) x h = (reason, cc)

  json_fails :
      (r : Result String Value) (x : SipError)
      → judged_json S label r ≡ err x
      → IsParseFailure label x
  unfolding judged_json
  json_fails (ok v) x h = judged_fails (S.model_validate v) x h
  json_fails (err reason) x h = (reason, cc)

  -- What a parse raises names the label, and its list of errors is empty.
  pub parse_model-IsParseFailure :
      (v : Value) (x : SipError) → parse_model J S label v ≡ err x → IsParseFailure label x
  parse_model-IsParseFailure v x h = json_fails (source_of J v) x (sym (parse-source v) ∙ h)
