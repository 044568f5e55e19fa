-- ===== src/Broker/Submission/Headers.antt =====
-- The identity headers of a submission in a deployment that does not trust them.
use semantic_intent_protocol.Base.{
  ok, err, Result, sym, ◌∙◌, ap, ◌≡◌, Dict, Option, String, false, refl,
}
use semantic_intent_protocol.Broker.Handlers.{Draws}
use semantic_intent_protocol.Broker.Identity.{map_identity_headers, is_trusted_identity_enabled}
use semantic_intent_protocol.Broker.Identity.Overrides.{map_identity_headers-IsMapped}
use semantic_intent_protocol.Broker.Responses.{JsonResponse}
use semantic_intent_protocol.Broker.Service.{BrokerService}
use semantic_intent_protocol.Broker.Submission.{answer_body, read_body, submitted, submit_intent}
use semantic_intent_protocol.Envelope.Models.{IntentEnvelope}
use semantic_intent_protocol.Wire.{Schema, Json}

module _ (J : Json) (S : Schema IntentEnvelope) (lower strip : String → String) where
  unmapped :
      (variable : Option String) (hs : Dict String) (e : IntentEnvelope)
      → is_trusted_identity_enabled lower variable ≡ false
      → map_identity_headers strip (is_trusted_identity_enabled lower variable) hs e.actor ≡ e.actor
  unmapped variable hs e h =
      ap (λ t. map_identity_headers strip t hs e.actor) h
      ∙ (map_identity_headers-IsMapped strip hs e.actor).0

  answer_body-untrusted :
      (variable : Option String) (headers others : Dict String) (d : Draws) (b : BrokerService)
      (body : Result JsonResponse IntentEnvelope)
      → is_trusted_identity_enabled lower variable ≡ false
      → answer_body J S lower strip variable headers d b body
        ≡ answer_body J S lower strip variable others d b body
  unfolding answer_body
  answer_body-untrusted variable headers others d b (err x) h = refl
  answer_body-untrusted variable headers others d b (ok e) h =
      ap (submitted J S lower strip d e b)
        (unmapped variable headers e h ∙ sym (unmapped variable others e h))

  -- Where the environment does not enable trusted headers, the response and the broker's state after
  -- a submission are the same for all headers.
  pub submit_intent_untrusted :
      (variable : Option String) (headers others : Dict String) (d : Draws) (text : String)
      (b : BrokerService)
      → is_trusted_identity_enabled lower variable ≡ false
      → submit_intent J S lower strip variable headers d text b
        ≡ submit_intent J S lower strip variable others d text b
  unfolding submit_intent
  submit_intent_untrusted variable headers others d text b h =
      answer_body-untrusted variable headers others d b (read_body J S 422 "invalid_envelope" text)
        h
