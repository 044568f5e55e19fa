-- ===== src/Broker.antt =====
-- The broker (sip/broker).
pub mod Handlers
pub mod Service
pub mod Identity
pub mod Responses
pub mod Submission
pub mod Endpoints
pub mod Federation
pub mod Discovery
