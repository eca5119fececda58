-- ===== src/Handlers.antt =====
-- internal/handlers: the HTTP handlers.
pub mod Reply
pub mod Decimal
pub mod Login
pub mod ApiKey
pub mod Messages
pub mod Lifecycle
pub mod Audit
pub mod Settings
pub mod Access
pub mod Sse
pub mod Outbound
pub mod Instances
pub mod KeyForm
pub mod Listings
pub mod NewInstance
