-- ===== src/Registry/Bootstrap/Providers.antt =====
-- The providers of sip/registry/bootstrap.py, and the scopes of sip/policy/scopes.py that its
-- capabilities require.
use semantic_intent_protocol.Base.{some, none, String}
use semantic_intent_protocol.Registry.Models.{ProviderMetadata}

abbrev pub scope_knowledge_read : String
scope_knowledge_read = "sip:knowledge:read"

abbrev pub scope_customer_read : String
scope_customer_read = "sip:customer:read"

abbrev pub scope_network_read : String
scope_network_read = "sip:network:read"

abbrev pub scope_booking_write : String
scope_booking_write = "sip:booking:write"

abbrev pub scope_agent_delegate : String
scope_agent_delegate = "sip:agent:delegate"

abbrev pub provider_knowledge : ProviderMetadata
provider_knowledge = record {
  provider_id = "knowledge_service";
  provider_name = "Enterprise Knowledge Service";
  contact = none;
  version = "1.2.0";
  documentation_url = some "https://internal.example.com/docs/knowledge";
}

abbrev pub provider_booking : ProviderMetadata
provider_booking = record {
  provider_id = "booking_service";
  provider_name = "Restaurant Booking Service";
  contact = none;
  version = "2.0.1";
  documentation_url = some "https://internal.example.com/docs/booking";
}

abbrev pub provider_network : ProviderMetadata
provider_network = record {
  provider_id = "network_ops";
  provider_name = "Network Operations Platform";
  contact = none;
  version = "3.1.0";
  documentation_url = some "https://internal.example.com/docs/network";
}

abbrev pub provider_summarizer : ProviderMetadata
provider_summarizer = record {
  provider_id = "ai_summarizer";
  provider_name = "AI Summarization Service";
  contact = none;
  version = "1.0.0";
  documentation_url = some "https://internal.example.com/docs/summarizer";
}

abbrev pub provider_agent_orchestrator : ProviderMetadata
provider_agent_orchestrator = record {
  provider_id = "agent_orchestrator";
  provider_name = "Agent Orchestration Platform";
  contact = none;
  version = "1.0.0";
  documentation_url = some "https://internal.example.com/docs/orchestrator";
}

abbrev pub provider_customer : ProviderMetadata
provider_customer = record {
  provider_id = "customer_service";
  provider_name = "Customer Data Service";
  contact = none;
  version = "1.0.0";
  documentation_url = some "https://internal.example.com/docs/customer";
}
