-- ===== src/Instance.antt =====
-- internal/instance: the instances, their table and their clients.
pub mod Store
pub mod Lookup
pub mod Qr
pub mod Manager
pub mod Logs
