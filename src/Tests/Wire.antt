-- ===== src/Tests/Wire.antt =====
-- A codec for the tests: a text names an entry of a table, and a value is rendered as its name. A
-- dict is named by its first field, and the listing of the registry is the only list.
use semantic_intent_protocol.Base.{
  string_eq, ◌==◌, if◌then◌else◌, lookup, Option, Value, String, none, some, ok, err, Dict, ◌∷◌, [],
  Items, Fields,
}
use semantic_intent_protocol.Broker.Discovery.Models.{DiscoveryError}
use semantic_intent_protocol.Broker.Responses.{ResponseBody}
use semantic_intent_protocol.Envelope.Models.{IntentEnvelope}
use semantic_intent_protocol.Registry.Models.{CapabilityDescriptor}
use semantic_intent_protocol.Tests.{request, library, get_article, list_articles}
use semantic_intent_protocol.Wire.{Json, Schema}

abbrev pub named : String → String → Value
named k t = Value.dict (Fields.field k (Value.str t) Fields.end_fields)

abbrev pub article_value : CapabilityDescriptor → Value
article_value c = named "capability_id" c.capability_id

abbrev pub answer_value : ResponseBody → Value
answer_value body = named "plan_id" (elim body.plan_id [ none ↦ "none" | some k ↦ k ])

abbrev pub listing : Value
listing = Value.list (
    Items.item (article_value list_articles)
      (Items.item (article_value get_article) Items.end_items))

abbrev table : Dict Value
table =
    ("intent-1", named "intent_id" "intent-1")
    ∷ ("plan-1", named "plan_id" "plan-1")
    ∷ ("get_article", article_value get_article)
    ∷ ("listing", listing)
    ∷ ("search", named "request" "search")
    ∷ ("found", named "response" "found")
    ∷ []

abbrev text_of_value : Value → String
text_of_value (Value.list vs) = "listing"
text_of_value (Value.dict (Fields.field k (Value.str t) fs)) = t
text_of_value v = ""

abbrev pub wire : Json
wire = record {
  render = text_of_value;
  loads = λ t. elim (lookup t table) [ none ↦ err "Expecting value" | some v ↦ ok v ];
}

-- Models that are named by a text: the schema knows one, or looks it up.
abbrev pub schema_of : {A : Type 0} → String → (A → String) → (String → Option A) → Schema A
schema_of k name found = record {
  model_dump = λ a. named k (name a);
  model_dump_json = λ a indent. name a;
  model_validate =
      λ v. elim (found (text_of_value v)) [ none ↦ err "Input should be valid" | some a ↦ ok a ];
}

abbrev pub envelopes : Schema IntentEnvelope
envelopes =
    schema_of "intent_id" (λ e. e.intent_id) (λ t. if t == "intent-1" then some request else none)

abbrev pub capabilities : Schema CapabilityDescriptor
capabilities = schema_of "capability_id" (λ c. c.capability_id) (λ t. lookup t library)

abbrev pub no_detail : DiscoveryError → String
no_detail x = ""
