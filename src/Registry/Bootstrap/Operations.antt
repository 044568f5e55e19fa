-- ===== src/Registry/Bootstrap/Operations.antt =====
-- The other five capabilities of `_CAPABILITIES` (sip/registry/bootstrap.py).
use semantic_intent_protocol.Base.{some, none, [], ◌∷◌, pos, true, false, ◌<>◌}
use semantic_intent_protocol.Envelope.Enums.{BindingType, OperationClass, TrustLevel}
use semantic_intent_protocol.Registry.Models.{CapabilityDescriptor, RiskLevel}
use semantic_intent_protocol.Registry.Bootstrap.Providers.{
  scope_knowledge_read, scope_customer_read, scope_network_read, scope_agent_delegate,
  provider_network, provider_summarizer, provider_agent_orchestrator, provider_customer,
}

abbrev pub diagnose_network_issue : CapabilityDescriptor
diagnose_network_issue = record {
  capability_id = "diagnose_network_issue";
  name = "Diagnose Network Issue";
  description =
      "Diagnose network problems on a specified device or site. "
      <> "Collects diagnostics, analyzes symptoms, and returns a "
      <> "structured diagnosis report.";
  provider = provider_network;
  intent_domains = "network_operations" ∷ "diagnostics" ∷ "infrastructure" ∷ [];
  input_schema = record {
    schema_id = none;
    description = "Network diagnosis request";
    properties =
        ("device_id", "string")
        ∷ ("site", "string (optional)")
        ∷ ("symptom", "string (optional)")
        ∷ ("diagnostic_depth", "string (optional: shallow | deep)")
        ∷ [];
    required_fields = "device_id" ∷ [];
  };
  output_schema = record {
    schema_id = none;
    description = "Network diagnosis report";
    properties =
        ("device_id", "string")
        ∷ ("diagnosis", "string")
        ∷ ("severity", "string")
        ∷ ("recommended_actions", "list[string]")
        ∷ ("raw_metrics", "object")
        ∷ [];
    required_fields = [];
  };
  operation_class = OperationClass.analyze;
  risk_level = RiskLevel.medium;
  required_scopes = scope_network_read ∷ [];
  minimum_trust_tier = TrustLevel.internal;
  supported_bindings = BindingType.rest ∷ BindingType.grpc ∷ BindingType.mcp ∷ [];
  execution = record {
    average_latency_ms = some (pos 3000);
    idempotent = true;
    supports_dry_run = false;
    max_retries = pos 3;
  };
  constraints = record {
    rate_limit_per_minute = none;
    requires_human_approval = false;
    allowed_environments = [];
  };
  examples = [];
  tags = "network" ∷ "diagnostics" ∷ "read-only" ∷ "infrastructure" ∷ [];
  extensions = [];
}

abbrev pub query_customer_data : CapabilityDescriptor
query_customer_data = record {
  capability_id = "query_customer_data";
  name = "Query Customer Data";
  description =
      "Query customer records from the CRM system. Returns structured "
      <> "customer data including account information and history.";
  provider = provider_customer;
  intent_domains = "customer_management" ∷ "crm" ∷ "data_retrieval" ∷ [];
  input_schema = record {
    schema_id = none;
    description = "Customer data query";
    properties =
        ("customer_id", "string (optional)")
        ∷ ("email", "string (optional)")
        ∷ ("filters", "object (optional)")
        ∷ [];
    required_fields = [];
  };
  output_schema = record {
    schema_id = none;
    description = "Customer record";
    properties =
        ("customer_id", "string")
        ∷ ("name", "string")
        ∷ ("email", "string")
        ∷ ("account_status", "string")
        ∷ [];
    required_fields = [];
  };
  operation_class = OperationClass.read;
  risk_level = RiskLevel.medium;
  required_scopes = scope_customer_read ∷ [];
  minimum_trust_tier = TrustLevel.internal;
  supported_bindings = BindingType.rest ∷ BindingType.grpc ∷ [];
  execution = record {
    average_latency_ms = some (pos 150);
    idempotent = true;
    supports_dry_run = false;
    max_retries = pos 3;
  };
  constraints = record {
    rate_limit_per_minute = none;
    requires_human_approval = false;
    allowed_environments = [];
  };
  examples = [];
  tags = "customer" ∷ "crm" ∷ "read-only" ∷ "data" ∷ [];
  extensions = [];
}

abbrev pub collect_device_telemetry : CapabilityDescriptor
collect_device_telemetry = record {
  capability_id = "collect_device_telemetry";
  name = "Collect Device Telemetry";
  description =
      "Collect real-time telemetry data from a network device. "
      <> "Returns metrics including CPU, memory, interface counters, and error rates.";
  provider = provider_network;
  intent_domains = "network_operations" ∷ "telemetry" ∷ "monitoring" ∷ [];
  input_schema = record {
    schema_id = none;
    description = "Telemetry collection request";
    properties =
        ("device_id", "string")
        ∷ ("metrics", "list[string] (optional)")
        ∷ ("time_window_seconds", "integer (optional)")
        ∷ [];
    required_fields = "device_id" ∷ [];
  };
  output_schema = record {
    schema_id = none;
    description = "Device telemetry snapshot";
    properties =
        ("device_id", "string")
        ∷ ("collected_at", "string (ISO 8601)")
        ∷ ("metrics", "object")
        ∷ [];
    required_fields = [];
  };
  operation_class = OperationClass.read;
  risk_level = RiskLevel.low;
  required_scopes = scope_network_read ∷ [];
  minimum_trust_tier = TrustLevel.internal;
  supported_bindings = BindingType.grpc ∷ BindingType.rest ∷ BindingType.a2a ∷ [];
  execution = record {
    average_latency_ms = some (pos 500);
    idempotent = true;
    supports_dry_run = false;
    max_retries = pos 3;
  };
  constraints = record {
    rate_limit_per_minute = none;
    requires_human_approval = false;
    allowed_environments = [];
  };
  examples = [];
  tags = "telemetry" ∷ "network" ∷ "monitoring" ∷ "read-only" ∷ [];
  extensions = [];
}

abbrev pub summarize_for_customer : CapabilityDescriptor
summarize_for_customer = record {
  capability_id = "summarize_for_customer";
  name = "Summarize for Customer";
  description =
      "Generate a customer-friendly, plain-language summary of technical "
      <> "content (e.g. network diagnosis, incident report). "
      <> "Avoids jargon and focuses on impact and resolution.";
  provider = provider_summarizer;
  intent_domains = "summarization" ∷ "customer_communication" ∷ "reporting" ∷ [];
  input_schema = record {
    schema_id = none;
    description = "Technical content to summarize";
    properties =
        ("content", "string")
        ∷ ("context", "string (optional)")
        ∷ ("tone", "string (optional: formal | friendly)")
        ∷ [];
    required_fields = "content" ∷ [];
  };
  output_schema = record {
    schema_id = none;
    description = "Customer-friendly summary";
    properties = ("summary", "string") ∷ ("impact", "string") ∷ ("resolution", "string") ∷ [];
    required_fields = [];
  };
  operation_class = OperationClass.analyze;
  risk_level = RiskLevel.low;
  required_scopes = scope_knowledge_read ∷ [];
  minimum_trust_tier = TrustLevel.internal;
  supported_bindings = BindingType.rest ∷ BindingType.mcp ∷ BindingType.a2a ∷ [];
  execution = record {
    average_latency_ms = some (pos 2000);
    idempotent = true;
    supports_dry_run = false;
    max_retries = pos 3;
  };
  constraints = record {
    rate_limit_per_minute = none;
    requires_human_approval = false;
    allowed_environments = [];
  };
  examples = [];
  tags = "summarization" ∷ "customer" ∷ "reporting" ∷ "read-only" ∷ [];
  extensions = [];
}

abbrev pub delegate_agent_task : CapabilityDescriptor
delegate_agent_task = record {
  capability_id = "delegate_agent_task";
  name = "Delegate Agent Task";
  description =
      "Delegate a structured task to another SIP-registered agent. "
      <> "Used for multi-agent orchestration workflows. "
      <> "The target agent processes the task and returns a structured result.";
  provider = provider_agent_orchestrator;
  intent_domains = "agent_orchestration" ∷ "multi_agent" ∷ "delegation" ∷ [];
  input_schema = record {
    schema_id = none;
    description = "Agent task delegation request";
    properties =
        ("target_agent_id", "string")
        ∷ ("task_type", "string")
        ∷ ("task_payload", "object")
        ∷ ("return_format", "string (optional)")
        ∷ [];
    required_fields = "target_agent_id" ∷ "task_type" ∷ "task_payload" ∷ [];
  };
  output_schema = record {
    schema_id = none;
    description = "Agent task result";
    properties =
        ("task_id", "string")
        ∷ ("status", "string")
        ∷ ("result", "object")
        ∷ ("agent_trace_id", "string")
        ∷ [];
    required_fields = [];
  };
  operation_class = OperationClass.delegate;
  risk_level = RiskLevel.medium;
  required_scopes = scope_agent_delegate ∷ [];
  minimum_trust_tier = TrustLevel.privileged;
  supported_bindings = BindingType.a2a ∷ BindingType.rest ∷ [];
  execution = record {
    average_latency_ms = some (pos 5000);
    idempotent = false;
    supports_dry_run = false;
    max_retries = pos 2;
  };
  constraints = record {
    rate_limit_per_minute = none;
    requires_human_approval = false;
    allowed_environments = [];
  };
  examples = [];
  tags = "agent" ∷ "delegation" ∷ "orchestration" ∷ "multi-agent" ∷ [];
  extensions = [];
}
