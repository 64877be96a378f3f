-- ===== src/Operations.antt =====
-- The background jobs of the backend.
pub mod Cleanup
pub mod Tests
