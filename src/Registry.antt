-- ===== src/Registry.antt =====
-- The capability registry (sip/registry).
pub mod Models
pub mod Storage
pub mod JsonFile
pub mod Service
pub mod Bootstrap
