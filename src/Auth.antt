-- ===== src/Auth.antt =====
-- internal/auth and internal/middleware/auth.go: accounts, logins and the check of tokens.
pub mod Users
pub mod Tokens
pub mod Handler
pub mod Registered
pub mod Session
mod Tests
