-- ===== src/Translator.antt =====
-- The adapters (sip/translator), which turn a plan into the payload of a binding.
pub mod Results
pub mod Rest
pub mod Calls
pub mod Rag
pub mod Adapters
pub mod Complete
