-- ===== src/Drafts.antt =====
-- work-briefs/work-briefs.service.ts: the drafts of briefs and the commands of their owners.
mod Tests
pub mod Types
pub mod Guard
pub mod Cited
pub mod Sourced
pub mod Refused
pub mod Client
pub mod Content
pub mod Selection
pub mod Present
pub mod Commands
pub mod Regeneration
pub mod Refresh
pub mod Calls
pub mod Versions
pub mod Edits
pub mod Deletion
pub mod Guarded
pub mod Disclosure
pub mod Listing
