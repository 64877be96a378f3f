-- ===== src/Publication.antt =====
-- backend/src/publications: the publication of a brief to Confluence and Jira.
pub mod Types
pub mod Claimer
pub mod Safety
pub mod Phases
pub mod Recovery
pub mod World
pub mod Execute
pub mod Service
pub mod Tests
