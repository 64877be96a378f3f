-- ===== src/Publication/Service.antt =====
-- publication.service.ts: the commands of the publication service.
pub mod Store
pub mod Guards
pub mod Present
pub mod Steps
pub mod Run
pub mod Commands
pub mod Initial
pub mod Publish
pub mod Queries
pub mod Sending
pub mod Checked
pub mod Begun
pub mod Phased
pub mod Resumed
pub mod First
pub mod Opened
pub mod Revisions
