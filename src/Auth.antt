-- ===== src/Auth.antt =====
-- internal/auth: manager sessions and the limiter of failed logins.
pub mod LoginLimit
pub mod Session
pub mod Middleware
