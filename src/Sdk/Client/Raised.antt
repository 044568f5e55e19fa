-- ===== src/Sdk/Client/Raised.antt =====
-- What a request of the clients (sip/sdk/clients.py) and the reading of its response raise.
use mathlib.Core.Path.{sym, subst}
use semantic_intent_protocol.Base.{
  refl, ◌>>=◌, [], leb→le, ◌∙◌, leb, Bool-cases, ok_ne_err, ◌<◌, ◌≤◌, ok, ◌<>◌, err, ◌⊎◌, ◌≡◌,
  Value, Option, Result, String, none, some, inl, inr, ℕ,
}
use semantic_intent_protocol.Sdk.Client.{
  status_error, no_httpx, other_exception, sip_http_error, Httpx, get_path, post_path,
  sip_client_error, Client, HttpResponse, received, json_result,
}
use semantic_intent_protocol.Sdk.Client.Exchange.{raise_for_status-err, raise_for_status-ok}
use semantic_intent_protocol.Sdk.Client.Judged.{get_answer, post_answer, IsJudged}
use semantic_intent_protocol.Sdk.Errors.{sip_validation_error, SipError}

-- What a method may raise, by what httpx answered; `none` is the missing package. The messages of a
-- parse have one of two openings, and their list of errors is empty.
abbrev pub IsRaised : Option (Result String HttpResponse) → SipError → Type 0
IsRaised answer (sip_client_error message) =
    (answer ≡ none) ⊎ ((reason : String) × (answer ≡ some (err reason)))
IsRaised answer (sip_http_error message status body) =
    (r : HttpResponse) × (answer ≡ some (ok r))
    × (400 ≤ r.status_code)
    × (status ≡ some r.status_code)
    × (body ≡ r.text)
IsRaised answer (sip_validation_error message errors) =
    (errors ≡ [])
    × (((rest : String) × (message ≡ "Failed to parse " <> rest))
        ⊎ ((rest : String) × (message ≡ "Invalid discovery request: " <> rest)))
IsRaised answer (other_exception text) =
    (r : HttpResponse) × (answer ≡ some (ok r)) × (r.status_code < 400) × (r.json ≡ err text)

-- A result that is no exception, or one that may be raised.
abbrev pub RaisesOnly :
    {A : Type 0} → Option (Result String HttpResponse) → Result SipError A → Type 0
RaisesOnly answer (ok a) = Unit
RaisesOnly answer (err e) = IsRaised answer e

pub raises_only :
    {A : Type 0} (answer : Option (Result String HttpResponse)) (o : Result SipError A)
    → ((e : SipError) → o ≡ err e → IsRaised answer e)
    → RaisesOnly answer o
raises_only answer (ok a) h = tt
raises_only answer (err e) h = h e refl

pub bind_raises :
    {A B : Type 0} (o : Result SipError A) (f : A → Result SipError B) (e : SipError)
    → (o >>= f) ≡ err e
    → (o ≡ err e) ⊎ ((a : A) × (o ≡ ok a) × (f a ≡ err e))
bind_raises (ok a) f e h = inr (a, refl, h)
bind_raises (err x) f e h = inl cc

pub json_result_raises :
    (j : Result String Value) (e : SipError)
    → json_result j ≡ err e
    → (text : String) × (j ≡ err text) × (other_exception text ≡ e)
unfolding json_result
json_result_raises (ok v) e h = absurd (ok_ne_err h)
json_result_raises (err t) e h = (t, refl, cc)

module _ (show : ℕ → String) where
  received-IsRaised :
      (verb url : String) (answer : Result String HttpResponse) (e : SipError)
      → received show verb url answer ≡ err e
      → IsRaised (some answer) e
  unfolding received
  received-IsRaised verb url (err reason) e h =
      let same : sip_client_error (verb <> " " <> url <> " failed: " <> reason) ≡ e = cc in
      subst (IsRaised (some (err reason))) same (inr (reason, refl))
  received-IsRaised verb url (ok r) e h = elim (Bool-cases (leb 400 r.status_code)) [
    | inr low ↦ absurd (ok_ne_err (sym (raise_for_status-ok show r low) ∙ h))
    | inl high ↦
        let both : ◌≡◌ {A = Result SipError HttpResponse} (err (status_error show r)) (err e) =
          sym (raise_for_status-err show r high) ∙ h in
        let same : status_error show r ≡ e = cc in
        subst (IsRaised (some (ok r))) same (r, refl, leb→le 400 r.status_code high, refl, refl)
  ]

  module _ {State : Type 0} (c : Client) (s : State) where
    pub get_path-IsRaised :
        (x : Option (Httpx State)) (path : String) (e : SipError)
        → (get_path show x c path s).0 ≡ err e
        → IsRaised (get_answer show c s x path) e
    unfolding get_path
    get_path-IsRaised none path e h =
        let same : no_httpx ≡ e = cc in subst (IsRaised none) same (inl refl)
    get_path-IsRaised (some x) path e h = received-IsRaised "GET" (c.base_url <> path) _ e h

    pub post_path-IsRaised :
        (x : Option (Httpx State)) (path body : String) (e : SipError)
        → (post_path show x c path body s).0 ≡ err e
        → IsRaised (post_answer show c s x path body) e
    unfolding post_path
    post_path-IsRaised none path body e h =
        let same : no_httpx ≡ e = cc in subst (IsRaised none) same (inl refl)
    post_path-IsRaised (some x) path body e h = received-IsRaised "POST" (c.base_url <> path) _ e h

-- A method that reads a response raises what the request raises, or what the reading raises of a
-- response below 400.
pub reading-IsRaised :
    {B : Type 0} (answer : Option (Result String HttpResponse))
    (judged : Result SipError HttpResponse) (f : HttpResponse → Result SipError B) (e : SipError)
    → IsJudged answer judged
    → (judged ≡ err e → IsRaised answer e)
    → ((r : HttpResponse)
        → answer ≡ some (ok r)
        → r.status_code < 400
        → f r ≡ err e
        → IsRaised answer e)
    → (judged >>= f) ≡ err e
    → IsRaised answer e
reading-IsRaised answer judged f e w sent read h = elim (bind_raises judged f e h) [
  | inl k ↦ sent k
  | inr (r, k, g) ↦ let (answered, low) = (w.returns r).0 k in read r answered low g
]
