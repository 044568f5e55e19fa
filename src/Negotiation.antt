-- ===== src/Negotiation.antt =====
-- Negotiation: matching an intent to a capability, and planning (sip/negotiation).
pub mod Results
pub mod Matcher
pub mod Planner
