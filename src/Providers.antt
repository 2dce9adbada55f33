-- ===== src/Providers.antt =====
-- The providers of language models: engine/provider.
pub mod Retry
mod Tests
