-- ===== src/Sdk/Errors.antt =====
-- The exceptions of sip/sdk/errors.py. `show` is Python's `str` of a number.
use semantic_intent_protocol.Base.{ℕ, String, List, Option, none, some, [], ◌∷◌, ◌<>◌}

pub data SipError : Type 0 where
  -- The message and the `errors`.
  sip_validation_error : String → List String → SipError
  sip_client_error : String → SipError
  -- The message, the `status_code` and the `response_body`.
  sip_http_error : String → Option ℕ → Option String → SipError
  -- An exception that is no `SIPError`, with its text.
  other_exception : String → SipError

-- `separator.join(texts)`
join : String → List String → String
join separator [] = ""
join separator (t ∷ []) = t
join separator (t ∷ u ∷ ts) = t <> separator <> join separator (u ∷ ts)

-- `__str__`
unfoldable pub text_of_error : (ℕ → String) → SipError → String
unfolding join
text_of_error show (sip_validation_error message []) = message
text_of_error show (sip_validation_error message (e ∷ errors)) =
    message <> ": " <> join "; " (e ∷ errors)
text_of_error show (sip_client_error message) = message
text_of_error show (sip_http_error message none body) = message
text_of_error show (sip_http_error message (some status) body) =
    join " " (message ∷ ("status=" <> show status) ∷ [])
text_of_error show (other_exception text) = text
