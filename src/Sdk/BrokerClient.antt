-- ===== src/Sdk/BrokerClient.antt =====
-- `BrokerClient` of sip/sdk/clients.py.
pub mod Submission
use semantic_intent_protocol.Base.{Fields, ℕ, String, Option, Value, Result, ok, err, none}
use semantic_intent_protocol.Envelope.Models.{IntentEnvelope}
use semantic_intent_protocol.Sdk.Client.{json_of, reading, get_path, post_path, Client, Httpx}
use semantic_intent_protocol.Sdk.Errors.{SipError}
use semantic_intent_protocol.Sdk.Serialization.{parse_intent_envelope, to_json, parse_model}
use semantic_intent_protocol.Wire.{Schema, Json}

module _ (J : Json) (show : ℕ → String) (S : Schema IntentEnvelope) {State : Type 0}
    (x : Option (Httpx State)) (c : Client) where
  unfoldable pub health : State → Result SipError Value × State
  unfolding get_path
  health s = reading json_of (get_path show x c "/healthz" s)

  unfoldable pub submit_intent : IntentEnvelope → State → Result SipError Value × State
  unfolding post_path to_json
  submit_intent e s = reading json_of (post_path show x c "/sip/intents" (to_json S none e) s)

  submit_parsed : Result SipError IntentEnvelope → State → Result SipError Value × State
  unfolding submit_intent
  submit_parsed (err e) s = (err e, s)
  submit_parsed (ok e) s = submit_intent e s

  unfoldable pub submit_intent_dict : Fields → State → Result SipError Value × State
  unfolding submit_parsed parse_model
  submit_intent_dict fields s = submit_parsed (parse_intent_envelope J S (Value.dict fields)) s

  unfoldable pub submit_intent_json : String → State → Result SipError Value × State
  unfolding submit_parsed parse_model
  submit_intent_json text s = submit_parsed (parse_intent_envelope J S (Value.str text)) s
