-- ===== src/Metadata.antt =====
-- internal/metadata: folders, listings and search.
pub mod Like
pub mod Repository
pub mod Service
pub mod Handler
pub mod Literal
pub mod Tree
pub mod Kept
pub mod Steps
pub mod Checked
pub mod Trees
pub mod Requests
pub mod Found
pub mod Complete
pub mod Denied
mod Tests
