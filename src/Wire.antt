-- ===== src/Wire.antt =====
-- JSON and Pydantic as the endpoints of the broker and the clients use them. Both are parameters:
-- what raises gives the text of the exception.
use semantic_intent_protocol.Base.{String, Option, Value, Fields, Result, ok, ◌≡◌, ℤ}

pub record Json : Type 0 where
  -- The text that a `JSONResponse` is rendered to.
  pub render : Value → String
  -- `json.loads`, and the `json()` of a request or of a response.
  pub loads : String → Result String Value

pub record Schema (A : Type 0) : Type 0 where
  -- `model_dump(mode="json")`
  pub model_dump : A → Value
  -- `model_dump_json(indent=indent)`
  pub model_dump_json : A → Option ℤ → String
  pub model_validate : Value → Result String A

-- The text that a value is rendered to is read back.
abbrev pub IsRead : Json → Value → Type 0
IsRead J v = J.loads (J.render v) ≡ ok v

-- The model is dumped as a dict, and the dump is validated as the model.
pub record IsDumped {A : Type 0} (S : Schema A) (a : A) : Type 0 where
  pub dump-dict : (fields : Fields) × (S.model_dump a ≡ Value.dict fields)
  pub validate-dump : S.model_validate (S.model_dump a) ≡ ok a

-- The JSON text of the model, with any indentation, is read as its dump.
abbrev pub IsWritten : {A : Type 0} → Json → Schema A → A → Type 0
IsWritten J S a = (indent : Option ℤ) → J.loads (S.model_dump_json a indent) ≡ ok (S.model_dump a)
