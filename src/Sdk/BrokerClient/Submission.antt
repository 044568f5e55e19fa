-- ===== src/Sdk/BrokerClient/Submission.antt =====
-- What `BrokerClient.submit_intent` (sip/sdk/clients.py) returns and raises where its request
-- reaches the broker.
use mathlib.Core.Path.{subst}
use semantic_intent_protocol.Base.{
  refl, none, ok_ne_err, ap, err, ◌⊎◌, ◌↔◌, ◌∙◌, ok, sym, ◌<>◌, true_ne_false, ◌≡◌, leb, Result,
  Dict, Option, String, ℕ, Value, some, true, false, inl, inr, ◌>>=◌,
}
use semantic_intent_protocol.Broker.Discovery.Models.{DiscoveryError}
use semantic_intent_protocol.Broker.Handlers.{process_intent, BrokerResult, Draws}
use semantic_intent_protocol.Broker.Identity.{is_trusted_identity_enabled, map_identity_headers}
use semantic_intent_protocol.Broker.Responses.{
  content_value, ResponseBody, response_body, JsonResponse, Content, submission,
}
use semantic_intent_protocol.Broker.Service.{status_code, handle, BrokerService}
use semantic_intent_protocol.Broker.Service.Cases.{
  served, forbidden, bad_request, process_intent-StatusCase, IsServed, IsForbidden,
}
use semantic_intent_protocol.Broker.Submission.{submitted}
use semantic_intent_protocol.Broker.Submission.Body.{submit_intent-dump_json}
use semantic_intent_protocol.Envelope.Models.{IntentEnvelope}
use semantic_intent_protocol.Envelope.Validator.Accepted.{IsAccepted}
use semantic_intent_protocol.Sdk.BrokerClient.{submit_intent}
use semantic_intent_protocol.Sdk.Client.{
  reading, status_error, HttpResponse, json_of, Client, raise_for_status, Httpx,
}
use semantic_intent_protocol.Sdk.Client.Exchange.{
  raise_for_status-err, json_of-delivered, post_path-answered, raise_for_status-ok, IsHttpError,
  delivered,
}
use semantic_intent_protocol.Sdk.Errors.{sip_http_error, SipError}
use semantic_intent_protocol.Sdk.Serialization.{to_json}
use semantic_intent_protocol.Wire.{IsWritten, IsDumped, IsRead, Schema, Json}
use semantic_intent_protocol.Broker.Submission

module _ (J : Json) (S : Schema IntentEnvelope) (detail_text : DiscoveryError → String)
    (body_value : ResponseBody → Value) (show : ℕ → String) (lower strip : String → String) where
  abbrev value_of : Content → Value
  value_of = content_value detail_text body_value

  module _ (b : BrokerService) (d : Draws) (e : IntentEnvelope) where
    -- What is returned and raised for an envelope that the broker handles as `e`.
    pub record IsAnswered (answer : Result SipError Value) : Type 0 where
      pub returns :
          (v : Value)
          → (answer ≡ ok v) ↔ (
              (v ≡ body_value (response_body (handle lower d e b).0))
              × IsServed lower b.enforce_approval b.registry d e)
      pub raises :
          (x : SipError)
          → answer ≡ err x
          → (IsHttpError 400 x × (IsAccepted d.checked_at e → ⊥))
            ⊎ (IsHttpError 403 x × IsForbidden lower b.enforce_approval b.registry d e)

    abbrev result : BrokerResult
    result = process_intent lower b.enforce_approval b.registry d e

    abbrev answer_for : String → Result SipError Value
    answer_for url =
        raise_for_status show (
          delivered J value_of url (record {
            status_code = status_code result;
            content = submission (response_body result);
          }))
        >>= json_of

    raised-IsAnswered :
        (url : String) (status : ℕ)
        → status_code result ≡ status
        → leb 400 status ≡ true
        → (IsServed lower b.enforce_approval b.registry d e → ⊥)
        → ((x : SipError)
            → IsHttpError status x
            → (IsHttpError 400 x × (IsAccepted d.checked_at e → ⊥))
              ⊎ (IsHttpError 403 x × IsForbidden lower b.enforce_approval b.registry d e))
        → IsAnswered (answer_for url)
    unfolding handle
    raised-IsAnswered url status code high unserved why =
        let response : HttpResponse = delivered J value_of url (record {
          status_code = status_code result;
          content = submission (response_body result);
        }) in
        let raised : answer_for url ≡ err (status_error show response) =
          ap (λ r. r >>= json_of) (raise_for_status-err show response (ap (leb 400) code ∙ high)) in
        record {
          returns = λ v. (
            λ h. absurd (ok_ne_err (sym h ∙ raised)),
            λ (same, serves). absurd (unserved serves),
          );
          raises = λ x h.
              let same : x ≡ status_error show response = cc in
              why x (
                _,
                _,
                same
                    ∙ ap
                        (λ n.
                          sip_http_error ("HTTP " <> show (status_code result) <> " from " <> url)
                            (some n) response.text)
                        code,
              );
        }

    returned-IsAnswered :
        (url : String)
        → IsRead J (value_of (submission (response_body result)))
        → leb 400 (status_code result) ≡ false
        → IsServed lower b.enforce_approval b.registry d e
        → IsAnswered (answer_for url)
    unfolding handle
    returned-IsAnswered url readable low serves =
        let response : JsonResponse = record {
          status_code = status_code result;
          content = submission (response_body result);
        } in
        let returned : answer_for url ≡ ok (value_of response.content) =
          ap (λ r. r >>= json_of) (raise_for_status-ok show (delivered J value_of url response) low)
          ∙ json_of-delivered J value_of url response readable in
        record {
          returns = λ v. (
            λ h. let same : v ≡ value_of response.content = cc in (same, serves),
            λ (same, again). returned ∙ ap ok (sym same),
          );
          raises = λ x h. absurd (ok_ne_err (sym returned ∙ h));
        }

    answer_for-IsAnswered :
        (url : String)
        → IsRead J (value_of (submission (response_body result)))
        → IsAnswered (answer_for url)
    answer_for-IsAnswered url readable =
        elim (process_intent-StatusCase lower b.enforce_approval b.registry d e) [
          | bad_request code unaccepted ↦
              raised-IsAnswered url 400 code refl (λ serves. unaccepted serves.accepted)
                (λ x h. inl (h, unaccepted))
          | forbidden code forbids ↦
              raised-IsAnswered url 403 code refl (λ serves. unforbidden forbids serves)
                (λ x h. inr (h, forbids))
          | served low serves ↦ returned-IsAnswered url readable low serves
        ]
      where
        unforbidden :
            IsForbidden lower b.enforce_approval b.registry d e
            → IsServed lower b.enforce_approval b.registry d e
            → ⊥
        unforbidden forbids serves = elim serves.granted [
          | inl asks ↦ true_ne_false (sym asks ∙ forbids.settled)
          | inr allowed ↦ true_ne_false (sym allowed ∙ forbids.forbids)
        ]

  -- The envelope that the broker handles: the actor is what the headers make of it.
  abbrev pub received_envelope : Option String → Dict String → IntentEnvelope → IntentEnvelope
  received_envelope variable headers e = record e {
    actor = map_identity_headers strip (is_trusted_identity_enabled lower variable) headers e.actor;
  }

  -- If its request reaches the broker and what is sent and delivered is read back, a submission returns the broker's response body exactly if
  -- the envelope, with the actor that the headers give, is accepted, and the broker asks for
  -- clarification or allows the intent. It raises the error for status 400 only if the envelope is
  -- not accepted, that for 403 only if the policy denies the intent, and no other. The broker's
  -- state is then the one after handling that envelope.
  pub submit_intent-IsAnswered :
      (x : Httpx BrokerService) (c : Client) (b : BrokerService) (d : Draws) (e : IntentEnvelope)
      (variable : Option String) (headers : Dict String)
      → IsDumped S e
      → IsWritten J S e
      → IsRead J
          (body_value (response_body (handle lower d (received_envelope variable headers e) b).0))
      → x.http_post (c.base_url <> "/sip/intents") (S.model_dump_json e none) c.headers c.timeout b
        ≡ (let (response, after) =
              Submission.submit_intent J S lower strip variable headers d
                (S.model_dump_json e none)
                b in
            (ok (delivered J value_of (c.base_url <> "/sip/intents") response), after))
      → IsAnswered b d
          (received_envelope variable headers e)
          (submit_intent J show S (some x) c e b).0
        × ((submit_intent J show S (some x) c e b).1
            ≡ (handle lower d (received_envelope variable headers e) b).1)
  unfolding submit_intent to_json submitted handle
  submit_intent-IsAnswered x c b d e variable headers dumped written readable h =
      let url = c.base_url <> "/sip/intents" in
      let sent = received_envelope variable headers e in
      let answered =
        h
        ∙ ap (λ p. (ok (delivered J value_of url p.0), p.1))
            (submit_intent-dump_json J S lower strip e dumped written variable headers d b) in
      let exchange =
        post_path-answered show x c b (handle lower d sent b).1
          (delivered J value_of url (submitted J S lower strip d e b sent.actor).0) "/sip/intents"
          (S.model_dump_json e none) answered in
      (
        subst (λ p. IsAnswered b d sent (reading json_of p).0) (sym exchange)
            (answer_for-IsAnswered b d sent url readable),
        ap (λ p. p.1) exchange,
      )
