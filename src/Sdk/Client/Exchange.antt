-- ===== src/Sdk/Client/Exchange.antt =====
-- A client whose requests reach the endpoints of sip/broker/service.py: what it then gets of an
-- endpoint's response.
use semantic_intent_protocol.Base.{
  false, some, ap, if-true, if-false, ◌<>◌, leb, ◌≡◌, ℕ, String, Option, Value, ok, err, true,
}
use semantic_intent_protocol.Broker.Responses.{JsonResponse, Content}
use semantic_intent_protocol.Sdk.Client.{
  json_of, received, status_error, get_path, json_result, post_path, Client, HttpResponse, Httpx,
  raise_for_status,
}
use semantic_intent_protocol.Sdk.Errors.{sip_http_error, SipError}
use semantic_intent_protocol.Wire.{IsRead, Json}

-- The exception for a status code, with whatever message and body.
abbrev pub IsHttpError : ℕ → SipError → Type 0
IsHttpError status x =
    (message : String) × (body : Option String) × (x ≡ sip_http_error message (some status) body)

module _ (J : Json) (value_of : Content → Value) where
  -- The response that httpx gives for what an endpoint answers. `value_of` is the JSON of a content.
  abbrev pub delivered : String → JsonResponse → HttpResponse
  delivered url r = record {
    status_code = r.status_code;
    url = url;
    text = some (J.render (value_of r.content));
    json = J.loads (J.render (value_of r.content));
  }

  pub json_of-delivered :
      (url : String) (r : JsonResponse)
      → IsRead J (value_of r.content)
      → json_of (delivered url r) ≡ ok (value_of r.content)
  unfolding json_result
  json_of-delivered url r readable = ap json_result readable

module _ (show : ℕ → String) {State : Type 0} (x : Httpx State) (c : Client) (s s' : State)
    (r : HttpResponse) where
  -- An exchange is judged by its status.
  pub get_path-answered :
      (path : String)
      → x.http_get (c.base_url <> path) c.headers c.timeout s ≡ (ok r, s')
      → get_path show (some x) c path s ≡ (raise_for_status show r, s')
  unfolding get_path
  get_path-answered path h = ap (λ p. (received show "GET" (c.base_url <> path) p.0, p.1)) h

  pub post_path-answered :
      (path body : String)
      → x.http_post (c.base_url <> path) body c.headers c.timeout s ≡ (ok r, s')
      → post_path show (some x) c path body s ≡ (raise_for_status show r, s')
  unfolding post_path
  post_path-answered path body h = ap (λ p. (received show "POST" (c.base_url <> path) p.0, p.1)) h

module _ (show : ℕ → String) where
  pub raise_for_status-ok :
      (r : HttpResponse) → leb 400 r.status_code ≡ false → raise_for_status show r ≡ ok r
  unfolding raise_for_status
  raise_for_status-ok r h = if-false (leb 400 r.status_code) _ _ h

  pub raise_for_status-err :
      (r : HttpResponse)
      → leb 400 r.status_code ≡ true
      → raise_for_status show r ≡ err (status_error show r)
  unfolding raise_for_status
  raise_for_status-err r h = if-true (leb 400 r.status_code) _ _ h
