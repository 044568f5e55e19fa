-- ===== src/Policy.antt =====
-- Policy (sip/policy).
pub mod Interface
pub mod Rules
pub mod Engine
pub mod Approvals
