-- ===== src/Broker/Submission.antt =====
-- `submit_intent` (sip/broker/service.py), the endpoint `/sip/intents`: the body of the request,
-- the identity headers, `handle`, the response body and the status code.
pub mod Headers
pub mod Body
pub mod Coherence
use semantic_intent_protocol.Base.{
  Value, ok, err, Result, none, some, Bool, String, List, Option, Dict, ℕ,
}
use semantic_intent_protocol.Broker.Handlers.{Draws}
use semantic_intent_protocol.Broker.Identity.{is_trusted_identity_enabled, map_identity_headers}
use semantic_intent_protocol.Broker.Responses.{
  exception_text, failure, response_body, submission, JsonResponse,
}
use semantic_intent_protocol.Broker.Service.{status_code, handle, BrokerService}
use semantic_intent_protocol.Envelope.Models.{ActorDescriptor, IntentEnvelope}
use semantic_intent_protocol.Wire.{Schema, Json}

abbrev refusal : ℕ → String → String → JsonResponse
refusal status name x = record { status_code = status; content = failure name (exception_text x) }

validated_body : {A : Type 0} → ℕ → String → Result String A → Result JsonResponse A
validated_body status invalid (err x) = err (refusal status invalid x)
validated_body status invalid (ok a) = ok a

parsed_body : {A : Type 0} → Schema A → ℕ → String → Result String Value → Result JsonResponse A
unfolding validated_body
parsed_body S status invalid (err x) = err (refusal status "malformed_request" x)
parsed_body S status invalid (ok body) = validated_body status invalid (S.model_validate body)

-- The text of a request's body as a model, or the response that refuses it.
unfoldable pub read_body :
    {A : Type 0} → Json → Schema A → ℕ → String → String → Result JsonResponse A
unfolding parsed_body
read_body J S status invalid text = parsed_body S status invalid (J.loads text)

module _ (J : Json) (S : Schema IntentEnvelope) (lower strip : String → String) where
  -- Handling, with the actor that the headers give.
  unfoldable pub submitted :
      Draws → IntentEnvelope → BrokerService → ActorDescriptor → JsonResponse × BrokerService
  submitted d e b actor =
      let (result, after) = handle lower d (record e { actor = actor }) b in
      (
        record { status_code = status_code result; content = submission (response_body result) },
        after,
      )

  answer_body :
      Option String
      → Dict String
      → Draws
      → BrokerService
      → Result JsonResponse IntentEnvelope
      → JsonResponse × BrokerService
  unfolding submitted
  answer_body variable headers d b (err refusal) = (refusal, b)
  answer_body variable headers d b (ok e) =
      submitted d e b
        (map_identity_headers strip (is_trusted_identity_enabled lower variable) headers e.actor)

  -- The environment variable, the headers, the draws and the text of the request's body.
  unfoldable pub submit_intent :
      Option String → Dict String → Draws → String → BrokerService → JsonResponse × BrokerService
  unfolding read_body answer_body
  submit_intent variable headers d text b =
      answer_body variable headers d b (read_body J S 422 "invalid_envelope" text)
