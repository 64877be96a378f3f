-- ===== src/Brief.antt =====
-- The content of a work brief, and the check of what it cites.
pub mod Types
pub mod Citations
pub mod Tests
