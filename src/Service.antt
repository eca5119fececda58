-- ===== src/Service.antt =====
-- cmd/slimwhats/main.go: what the program does with an event of a client.
pub mod Log
pub mod Callback
