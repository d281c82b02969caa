-- ===== src/Storage.antt =====
-- internal/storage: content-addressed files over PostgreSQL and MinIO.
pub mod World
pub mod Action
pub mod Repository
pub mod Chunks
pub mod Reader
pub mod Service
pub mod Collection
pub mod Handshake
pub mod Handler
pub mod ObjectStore
pub mod Disposition
pub mod Proofs
pub mod Samples
mod Tests
