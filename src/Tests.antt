-- ===== src/Tests.antt =====
-- Runs on small inputs, and each theorem at one of them.
mod Send
mod Buttons
mod Text
mod Auth
mod Webhook
mod Instance
mod Handlers
mod ApiKey
mod Manager
mod Service
mod Admin
