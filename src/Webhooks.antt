-- ===== src/Webhooks.antt =====
-- The intake of changes at the providers.
pub mod Freshness
pub mod Tests
