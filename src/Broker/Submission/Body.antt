-- ===== src/Broker/Submission/Body.antt =====
-- Reading a body that a client of the SDK writes.
use semantic_intent_protocol.Base.{none, ok, ℤ, ℕ, ◌∙◌, ap, ◌≡◌, Dict, Option, String}
use semantic_intent_protocol.Broker.Handlers.{Draws}
use semantic_intent_protocol.Broker.Identity.{is_trusted_identity_enabled, map_identity_headers}
use semantic_intent_protocol.Broker.Service.{BrokerService}
use semantic_intent_protocol.Broker.Submission.{
  validated_body, parsed_body, submitted, answer_body, read_body, submit_intent,
}
use semantic_intent_protocol.Envelope.Models.{IntentEnvelope}
use semantic_intent_protocol.Wire.{IsWritten, IsDumped, Schema, Json}

pub read_body-dump_json :
    {A : Type 0} (J : Json) (S : Schema A)
    → (a : A) → IsDumped S a
    → IsWritten J S a
    → (status : ℕ) (invalid : String) (indent : Option ℤ)
    → read_body J S status invalid (S.model_dump_json a indent) ≡ ok a
unfolding read_body
read_body-dump_json J S a dumped written status invalid indent =
    ap (parsed_body S status invalid) (written indent)
    ∙ ap (validated_body status invalid) (dumped.validate-dump)

-- The body that is sent for an envelope is handled as that envelope.
pub submit_intent-dump_json :
    (J : Json) (S : Schema IntentEnvelope) (lower strip : String → String)
    → (e : IntentEnvelope) → IsDumped S e
    → IsWritten J S e
    → (variable : Option String) (headers : Dict String) (d : Draws) (b : BrokerService)
    → submit_intent J S lower strip variable headers d (S.model_dump_json e none) b
      ≡ submitted J S lower strip d e b
          (map_identity_headers strip (is_trusted_identity_enabled lower variable) headers e.actor)
unfolding submit_intent answer_body
submit_intent-dump_json J S lower strip e dumped written variable headers d b =
    ap (answer_body J S lower strip variable headers d b)
      (read_body-dump_json J S e dumped written 422 "invalid_envelope" none)
