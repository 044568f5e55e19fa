-- ===== src/Sdk.antt =====
-- The Python SDK (sip/sdk): what its functions return and raise.
pub mod Errors
pub mod Serialization
pub mod Client
pub mod Arguments
pub mod Builders
pub mod Helpers
pub mod BrokerClient
pub mod DiscoveryClient
