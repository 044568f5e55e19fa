-- ===== src/Registry/Models.antt =====
-- The capability descriptor (sip/registry/models.py).
use semantic_intent_protocol.Base.{Value, Dict, String, Bool, Option, List, ℤ}
use semantic_intent_protocol.Envelope.Enums.{BindingType, TrustLevel, OperationClass}

pub data RiskLevel : Type 0 where
  low medium high critical : RiskLevel

pub record ProviderMetadata : Type 0 where
  pub provider_id : String
  pub provider_name : String
  pub contact : Option String
  pub version : String
  pub documentation_url : Option String

pub record SchemaReference : Type 0 where
  pub schema_id : Option String
  pub description : String
  pub properties : Dict String
  pub required_fields : List String

pub record ExecutionMetadata : Type 0 where
  pub average_latency_ms : Option ℤ
  pub idempotent : Bool
  pub supports_dry_run : Bool
  pub max_retries : ℤ

pub record CapabilityConstraints : Type 0 where
  pub rate_limit_per_minute : Option ℤ
  pub requires_human_approval : Bool
  pub allowed_environments : List String

pub record CapabilityExample : Type 0 where
  pub name : String
  pub description : String
  pub parameters : Dict Value
  pub expected_output_summary : String

pub record CapabilityDescriptor : Type 0 where
  pub capability_id : String
  pub name : String
  pub description : String
  pub provider : ProviderMetadata
  pub intent_domains : List String
  pub input_schema : SchemaReference
  pub output_schema : SchemaReference
  pub operation_class : OperationClass
  pub risk_level : RiskLevel
  pub required_scopes : List String
  pub minimum_trust_tier : TrustLevel
  pub supported_bindings : List BindingType
  pub execution : ExecutionMetadata
  pub constraints : CapabilityConstraints
  pub examples : List CapabilityExample
  pub tags : List String
  pub extensions : Dict Value
