-- ===== src/Sdk/Client/Judged.antt =====
-- When the requests of the clients (sip/sdk/clients.py) give a response.
use mathlib.Core.Path.{ap, subst}
use semantic_intent_protocol.Base.{
  inr, some, arith, leb→le, ◌∙◌, leb, Bool-cases, ◌<◌, ◌≤◌, sym, ◌<>◌, ◌↔◌, ok_ne_err, ◌≡◌, inl, ℕ,
  String, Option, Result, ok, err, none,
}
use semantic_intent_protocol.Sdk.Client.{
  status_error, post_path, sip_http_error, Httpx, get_path, received, sip_client_error, Client,
  HttpResponse, no_httpx,
}
use semantic_intent_protocol.Sdk.Client.Exchange.{raise_for_status-ok, raise_for_status-err}
use semantic_intent_protocol.Sdk.Errors.{SipError}

-- What a request raises: a client error, or an HTTP error for a status of 400 and above.
abbrev pub IsRequestError : SipError → Type 0
IsRequestError (sip_client_error message) = Unit
IsRequestError (sip_http_error message (some status) body) = 400 ≤ status
IsRequestError x = ⊥

-- The answer of httpx: `none` if the package is missing.
pub record IsJudged (answer : Option (Result String HttpResponse))
    (judged : Result SipError HttpResponse) : Type 0 where
  pub returns :
      (r : HttpResponse) → (judged ≡ ok r) ↔ ((answer ≡ some (ok r)) × r.status_code < 400)
  pub raises : (x : SipError) → judged ≡ err x → IsRequestError x

module _ (show : ℕ → String) where
  missing-IsJudged : IsJudged none (err no_httpx)
  missing-IsJudged = record {
    returns = λ r. (λ h. absurd (ok_ne_err (sym h)), λ (h, low). cc);
    raises = λ x h. let same : no_httpx ≡ x = cc in subst IsRequestError same tt;
  }

  received-IsJudged :
      (verb url : String) (answer : Result String HttpResponse)
      → IsJudged (some answer) (received show verb url answer)
  unfolding received
  received-IsJudged verb url (err reason) = record {
    returns = λ r. (λ h. absurd (ok_ne_err (sym h)), λ (h, low). cc);
    raises = λ x h.
        let same : sip_client_error (verb <> " " <> url <> " failed: " <> reason) ≡ x = cc in
        subst IsRequestError same tt;
  }
  received-IsJudged verb url (ok r) = elim (Bool-cases (leb 400 r.status_code)) [
    | inl high ↦
        let raised = raise_for_status-err show r high in
        record {
          returns = λ other. (
            λ h. absurd (ok_ne_err (sym h ∙ raised)),
            λ (h, low). absurd (
                let same : r ≡ other = cc in
                let bound : 400 ≤ r.status_code = leb→le 400 r.status_code high in
                omega (arith, subst (λ q. q.status_code < 400) (sym same) low, bound)),
          );
          raises = λ x h.
              let both : ◌≡◌ {A = Result SipError HttpResponse} (err (status_error show r))
                  (err x) =
                sym raised ∙ h in
              let same : status_error show r ≡ x = cc in
              subst IsRequestError same (leb→le 400 r.status_code high);
        }
    | inr low ↦
        let returned = raise_for_status-ok show r low in
        record {
          returns = λ other. (
            λ h.
                let both : ◌≡◌ {A = Result SipError HttpResponse} (ok r) (ok other) =
                  sym returned ∙ h in
                let same : r ≡ other = cc in
                (ap (λ q. some (ok q)) same, subst (λ q. q.status_code < 400) same (ground arith)),
            λ (h, below). let same : r ≡ other = cc in returned ∙ ap ok same,
          );
          raises = λ x h. absurd (ok_ne_err (sym returned ∙ h));
        }
  ]

  module _ {State : Type 0} (c : Client) (s : State) where
    -- The answers of httpx to a GET and to a POST.
    abbrev pub get_answer : Option (Httpx State) → String → Option (Result String HttpResponse)
    get_answer none path = none
    get_answer (some x) path = some (x.http_get (c.base_url <> path) c.headers c.timeout s).0

    abbrev pub post_answer :
        Option (Httpx State) → String → String → Option (Result String HttpResponse)
    post_answer none path body = none
    post_answer (some x) path body =
        some (x.http_post (c.base_url <> path) body c.headers c.timeout s).0

    -- A request, a GET or a POST, gives a response exactly if the package is there, httpx answers
    -- with that response, and its status is below 400, a redirection included. Otherwise it raises a
    -- client error, or an HTTP error for a status of 400 and above.
    pub get_path-IsJudged :
        (x : Option (Httpx State)) (path body : String)
        → IsJudged (get_answer x path) (get_path show x c path s).0
          × IsJudged (post_answer x path body) (post_path show x c path body s).0
    unfolding get_path post_path
    get_path-IsJudged none path body = (missing-IsJudged, missing-IsJudged)
    get_path-IsJudged (some x) path body = (
      received-IsJudged "GET" (c.base_url <> path)
          (x.http_get (c.base_url <> path) c.headers c.timeout s).0,
      received-IsJudged "POST" (c.base_url <> path)
          (x.http_post (c.base_url <> path) body c.headers c.timeout s).0,
    )
