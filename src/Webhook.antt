-- ===== src/Webhook.antt =====
-- internal/webhook: the deliveries to the receivers of the instances, and the events they carry.
pub mod Json
pub mod Events
pub mod Normalize
pub mod Dispatcher
