-- ===== src/Worker.antt =====
-- internal/worker: the processing of the event of an upload.
pub mod ContentType
pub mod Reading
pub mod Checked
pub mod Processor
pub mod Processed
pub mod Run
pub mod Delivered
mod Tests
