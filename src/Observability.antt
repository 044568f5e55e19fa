-- ===== src/Observability.antt =====
-- Observability (sip/observability).
pub mod Audit
