-- ===== src/Sdk/Client.antt =====
-- What the two clients of sip/sdk/clients.py share: their fields, and the requests that they send
-- and judge. `httpx` is a parameter that acts on a state: what it answers, or the text of what it
-- raises.
pub mod Exchange
pub mod Judged
pub mod Raised
use Prim.Native.Char.{Char, code}
use semantic_intent_protocol.Base.{
  pos, nat_eqb, ◌&&◌, insert, is_blank, leb, ◌>>=◌, Dict, if◌then◌else◌, ℕ, String, List, Option,
  none, some, [], ◌∷◌, ◌<>◌, Value, Float, ℤ, Result, ok, err, Bool, true, false,
}
use semantic_intent_protocol.Sdk.Errors.{
  other_exception, sip_client_error, sip_http_error, SipError,
}

-- A response of httpx. Its text is missing where reading it raises.
pub record HttpResponse : Type 0 where
  pub status_code : ℕ
  pub url : String
  pub text : Option String
  pub json : Result String Value

pub record Httpx (State : Type 0) : Type 0 where
  -- The URL, the headers and the timeout.
  pub http_get : String → Dict String → Float → State → Result String HttpResponse × State
  -- The URL, the body, the headers and the timeout.
  pub http_post : String → String → Dict String → Float → State → Result String HttpResponse × State

pub record Client : Type 0 where
  pub base_url : String
  pub timeout : Float
  pub headers : Dict String

-- `url.rstrip("/")`: the code of a slash is 47.
rstrip_slash : String → String
rstrip_slash String.[] = String.[]
rstrip_slash (String.◌∷◌ c s) =
    let rest = rstrip_slash s in
    if is_blank rest && nat_eqb (code c) 47 then String.[] else String.◌∷◌ c rest

-- `old.update(new)`
update_headers : Dict String → Dict String → Dict String
update_headers [] old = old
update_headers ((k, v) ∷ new) old = update_headers new (insert k v old)

abbrev default_timeout : Float
default_timeout = Float.finite (pos 30) (pos 0)

-- `__init__`; a missing timeout or missing headers are `none`.
unfoldable pub new_client : String → Option Float → Option (Dict String) → Client
unfolding rstrip_slash update_headers
new_client url timeout headers = record {
  base_url = rstrip_slash url;
  timeout = elim timeout [ none ↦ default_timeout | some t ↦ t ];
  headers =
      let fixed : Dict String =
        ("Content-Type", "application/json") ∷ ("Accept", "application/json") ∷ [] in
      elim headers [ none ↦ fixed | some hs ↦ update_headers hs fixed ];
}

-- The message of `_get_httpx` where the package is missing.
abbrev pub no_httpx : SipError
no_httpx = sip_client_error (
    "The 'httpx' package is required for HTTP client support. "
    <> "Install it with: pip install httpx")

-- `resp.json()` in a method: what it raises is not caught.
pub json_result : Result String Value → Result SipError Value
json_result (ok v) = ok v
json_result (err x) = err (other_exception x)

abbrev pub json_of : HttpResponse → Result SipError Value
json_of r = json_result r.json

-- What a method makes of the response it gets.
abbrev pub reading :
    {State A B : Type 0}
    → (A → Result SipError B)
    → Result SipError A × State
    → Result SipError B × State
reading f (answer, s) = (answer >>= f, s)

module _ (show : ℕ → String) where
  abbrev pub status_error : HttpResponse → SipError
  status_error r =
      sip_http_error ("HTTP " <> show r.status_code <> " from " <> r.url) (some r.status_code)
        r.text

  unfoldable pub raise_for_status : HttpResponse → Result SipError HttpResponse
  raise_for_status r = if leb 400 r.status_code then err (status_error r) else ok r

  received : String → String → Result String HttpResponse → Result SipError HttpResponse
  unfolding raise_for_status
  received verb url (err x) = err (sip_client_error (verb <> " " <> url <> " failed: " <> x))
  received verb url (ok r) = raise_for_status r

  module _ {State : Type 0} where
    -- `_get`; `none` is a missing package.
    unfoldable pub get_path :
        Option (Httpx State) → Client → String → State → Result SipError HttpResponse × State
    unfolding received
    get_path none c path s = (err no_httpx, s)
    get_path (some x) c path s =
        let url = c.base_url <> path in
        let (answer, s') = x.http_get url c.headers c.timeout s in (received "GET" url answer, s')

    -- `_post`
    unfoldable pub post_path :
        Option (Httpx State)
        → Client
        → String
        → String
        → State
        → Result SipError HttpResponse × State
    unfolding received
    post_path none c path body s = (err no_httpx, s)
    post_path (some x) c path body s =
        let url = c.base_url <> path in
        let (answer, s') = x.http_post url body c.headers c.timeout s in
        (received "POST" url answer, s')
