-- ===== src/Enrichment.antt =====
-- internal/ai: the summary of a file, from the model's answer to its row.
pub mod Repository
pub mod Service
pub mod Rows
pub mod Saved
mod Tests
