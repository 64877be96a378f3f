-- ===== src/Readiness.antt =====
-- Readiness of a draft for publication.
pub mod Coverage
pub mod Findings
pub mod Service
pub mod Tests
