-- ===== src/Envelope.antt =====
-- The intent envelope (sip/envelope).
pub mod Enums
pub mod Models
pub mod Validator
