-- ===== src/Registry/Bootstrap/Knowledge.antt =====
-- The first four capabilities of `_CAPABILITIES` (sip/registry/bootstrap.py).
use semantic_intent_protocol.Base.{some, none, [], ◌∷◌, pos, true, false, Value, ◌<>◌}
use semantic_intent_protocol.Envelope.Enums.{BindingType, OperationClass, TrustLevel}
use semantic_intent_protocol.Registry.Models.{CapabilityDescriptor, RiskLevel}
use semantic_intent_protocol.Registry.Bootstrap.Providers.{
  scope_knowledge_read, scope_booking_write, provider_knowledge, provider_booking,
  provider_summarizer,
}

abbrev pub retrieve_document : CapabilityDescriptor
retrieve_document = record {
  capability_id = "retrieve_document";
  name = "Retrieve Document";
  description =
      "Retrieve a specific document or file from the enterprise knowledge store "
      <> "by document ID, name, or query.";
  provider = provider_knowledge;
  intent_domains = "knowledge_management" ∷ "document_retrieval" ∷ "enterprise_search" ∷ [];
  input_schema = record {
    schema_id = none;
    description = "Document retrieval request";
    properties =
        ("document_id", "string (optional)")
        ∷ ("query", "string (optional)")
        ∷ ("collection", "string (optional)")
        ∷ [];
    required_fields = [];
  };
  output_schema = record {
    schema_id = none;
    description = "Retrieved document with metadata";
    properties =
        ("document_id", "string")
        ∷ ("title", "string")
        ∷ ("content", "string")
        ∷ ("metadata", "object")
        ∷ [];
    required_fields = [];
  };
  operation_class = OperationClass.retrieve;
  risk_level = RiskLevel.low;
  required_scopes = scope_knowledge_read ∷ [];
  minimum_trust_tier = TrustLevel.internal;
  supported_bindings = BindingType.rag ∷ BindingType.rest ∷ [];
  execution = record {
    average_latency_ms = some (pos 200);
    idempotent = true;
    supports_dry_run = false;
    max_retries = pos 3;
  };
  constraints = record {
    rate_limit_per_minute = some (pos 100);
    requires_human_approval = false;
    allowed_environments = "production" ∷ "staging" ∷ "development" ∷ [];
  };
  examples =
      record {
        name = "Retrieve architecture document";
        description = "Retrieve the latest approved architecture document.";
        parameters =
            ("query", Value.str "approved architecture document")
            ∷ ("collection", Value.str "architecture")
            ∷ [];
        expected_output_summary = "Returns document content and metadata.";
      }
      ∷ [];
  tags = "knowledge" ∷ "document" ∷ "retrieval" ∷ "read-only" ∷ [];
  extensions = [];
}

abbrev pub search_knowledge_base : CapabilityDescriptor
search_knowledge_base = record {
  capability_id = "search_knowledge_base";
  name = "Search Knowledge Base";
  description =
      "Perform a semantic or keyword search across one or more knowledge base "
      <> "collections. Returns ranked results with excerpts.";
  provider = provider_knowledge;
  intent_domains = "knowledge_management" ∷ "enterprise_search" ∷ "information_retrieval" ∷ [];
  input_schema = record {
    schema_id = none;
    description = "Search request";
    properties =
        ("query", "string")
        ∷ ("collections", "list[string] (optional)")
        ∷ ("max_results", "integer (optional, default 10)")
        ∷ ("filters", "object (optional)")
        ∷ [];
    required_fields = "query" ∷ [];
  };
  output_schema = record {
    schema_id = none;
    description = "Search results with relevance scores";
    properties = ("results", "list[SearchResult]") ∷ ("total_count", "integer") ∷ [];
    required_fields = [];
  };
  operation_class = OperationClass.retrieve;
  risk_level = RiskLevel.low;
  required_scopes = scope_knowledge_read ∷ [];
  minimum_trust_tier = TrustLevel.internal;
  supported_bindings = BindingType.rag ∷ BindingType.rest ∷ [];
  execution = record {
    average_latency_ms = some (pos 400);
    idempotent = true;
    supports_dry_run = false;
    max_retries = pos 3;
  };
  constraints = record {
    rate_limit_per_minute = none;
    requires_human_approval = false;
    allowed_environments = [];
  };
  examples =
      record {
        name = "Search for design decisions";
        description = "Search for main design decisions in architecture documents.";
        parameters =
            ("query", Value.str "main design decisions") ∷ ("max_results", Value.int (pos 5)) ∷ [];
        expected_output_summary = "Returns top 5 matching document excerpts.";
      }
      ∷ [];
  tags = "knowledge" ∷ "search" ∷ "retrieval" ∷ "read-only" ∷ [];
  extensions = [];
}

abbrev pub summarize_document : CapabilityDescriptor
summarize_document = record {
  capability_id = "summarize_document";
  name = "Summarize Document";
  description =
      "Generate a concise, structured summary of a document. "
      <> "Input can be document content or a document ID.";
  provider = provider_summarizer;
  intent_domains = "knowledge_management" ∷ "document_processing" ∷ "summarization" ∷ [];
  input_schema = record {
    schema_id = none;
    description = "Document summarization request";
    properties =
        ("document_id", "string (optional)")
        ∷ ("content", "string (optional)")
        ∷ ("summary_format", "string (optional: bullets | paragraph)")
        ∷ ("max_length", "integer (optional)")
        ∷ [];
    required_fields = [];
  };
  output_schema = record {
    schema_id = none;
    description = "Document summary";
    properties =
        ("summary", "string") ∷ ("key_points", "list[string]") ∷ ("word_count", "integer") ∷ [];
    required_fields = [];
  };
  operation_class = OperationClass.analyze;
  risk_level = RiskLevel.low;
  required_scopes = scope_knowledge_read ∷ [];
  minimum_trust_tier = TrustLevel.internal;
  supported_bindings = BindingType.rest ∷ BindingType.mcp ∷ [];
  execution = record {
    average_latency_ms = some (pos 1500);
    idempotent = true;
    supports_dry_run = false;
    max_retries = pos 3;
  };
  constraints = record {
    rate_limit_per_minute = none;
    requires_human_approval = false;
    allowed_environments = [];
  };
  examples = [];
  tags = "summarization" ∷ "document" ∷ "knowledge" ∷ "read-only" ∷ [];
  extensions = [];
}

abbrev pub reserve_table : CapabilityDescriptor
reserve_table = record {
  capability_id = "reserve_table";
  name = "Reserve Restaurant Table";
  description =
      "Book a restaurant table. Requires date, time, party size, and "
      <> "customer name. Returns a reservation confirmation.";
  provider = provider_booking;
  intent_domains = "booking" ∷ "restaurant" ∷ "reservation" ∷ [];
  input_schema = record {
    schema_id = none;
    description = "Table reservation request";
    properties =
        ("restaurant_name", "string (optional)")
        ∷ ("location", "string (optional)")
        ∷ ("date", "string (ISO 8601 date)")
        ∷ ("time", "string (HH:MM)")
        ∷ ("party_size", "integer")
        ∷ ("customer_name", "string")
        ∷ ("special_requests", "string (optional)")
        ∷ [];
    required_fields = "date" ∷ "time" ∷ "party_size" ∷ "customer_name" ∷ [];
  };
  output_schema = record {
    schema_id = none;
    description = "Reservation confirmation";
    properties =
        ("reservation_id", "string")
        ∷ ("restaurant_name", "string")
        ∷ ("confirmation_code", "string")
        ∷ ("status", "string")
        ∷ [];
    required_fields = [];
  };
  operation_class = OperationClass.write;
  risk_level = RiskLevel.medium;
  required_scopes = scope_booking_write ∷ [];
  minimum_trust_tier = TrustLevel.internal;
  supported_bindings = BindingType.rest ∷ BindingType.mcp ∷ [];
  execution = record {
    average_latency_ms = some (pos 800);
    idempotent = false;
    supports_dry_run = true;
    max_retries = pos 3;
  };
  constraints = record {
    rate_limit_per_minute = some (pos 20);
    requires_human_approval = false;
    allowed_environments = [];
  };
  examples =
      record {
        name = "Book table for two";
        description = "Book a table for 2 near downtown at 7 PM.";
        parameters =
            ("location", Value.str "downtown")
            ∷ ("date", Value.str "2024-12-15")
            ∷ ("time", Value.str "19:00")
            ∷ ("party_size", Value.int (pos 2))
            ∷ ("customer_name", Value.str "Alex")
            ∷ [];
        expected_output_summary = "Returns reservation confirmation with ID.";
      }
      ∷ [];
  tags = "booking" ∷ "restaurant" ∷ "write" ∷ "reservation" ∷ [];
  extensions = [];
}
