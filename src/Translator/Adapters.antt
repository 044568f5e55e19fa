-- ===== src/Translator/Adapters.antt =====
-- The adapters that `BrokerService` is built with (sip/broker/service.py).
use semantic_intent_protocol.Base.{[], ◌∷◌, String, Option, Dict, Value}
use semantic_intent_protocol.Negotiation.Planner.{ExecutionPlan}
use semantic_intent_protocol.Translator.Calls.{a2a_translate, mcp_translate, grpc_translate}
use semantic_intent_protocol.Translator.Rag.{rag_translate}
use semantic_intent_protocol.Translator.Rest.{rest_translate}
use semantic_intent_protocol.Translator.Results.{TranslationResult}

unfoldable pub default_adapters :
    (String → String) → (Value → String) → Dict (ExecutionPlan → Option TranslationResult)
unfolding rest_translate grpc_translate mcp_translate a2a_translate rag_translate
default_adapters capitalize text_of =
    ("rest", rest_translate)
    ∷ ("grpc", grpc_translate capitalize)
    ∷ ("mcp", mcp_translate)
    ∷ ("a2a", a2a_translate)
    ∷ ("rag", rag_translate text_of)
    ∷ []
