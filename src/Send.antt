-- ===== src/Send.antt =====
-- internal/send: who a message goes to, what is sent, and how often.
pub mod RateLimit
pub mod Recipient
pub mod Buttons
pub mod Text
pub mod Compose
