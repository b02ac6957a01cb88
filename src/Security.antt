-- ===== src/Security.antt =====
-- Message authentication, credentials and sessions.
pub mod Hmac
pub mod Credentials
pub mod Session
mod Tests
