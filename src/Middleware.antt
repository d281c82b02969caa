-- ===== src/Middleware.antt =====
-- internal/middleware: rate limits and client addresses.
pub mod BodyLimit
pub mod Counter
pub mod Limiter
pub mod ClientIp
pub mod OneEvent
pub mod Bounds
pub mod Shared
pub mod Script
pub mod Samples
mod Tests
