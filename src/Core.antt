-- ===== src/Core.antt =====
-- The core pipeline (sip/core): the normalized intent, the canonical policy engine, the
-- deterministic planner and the pipeline that composes them.
pub mod Intent
pub mod Policy
pub mod FailClosed
pub mod Planner
pub mod Bundle
pub mod Pipeline
