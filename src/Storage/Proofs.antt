-- ===== src/Storage/Proofs.antt =====
-- What holds of internal/storage.
pub mod Statements
pub mod Tables
pub mod Inversions
pub mod Stored
pub mod Step
pub mod Loop
pub mod Created
pub mod Uploaded
pub mod Upload
pub mod Download
pub mod Ended
pub mod Fuel
pub mod Collected
pub mod Roundtrip
pub mod Reads
pub mod Calm
pub mod CalmLoop
pub mod Succeeds
pub mod Keeps
pub mod Bucket
pub mod Spared
pub mod Held
pub mod Swept
pub mod OnlyOld
pub mod Failed
