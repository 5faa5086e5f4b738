-- ===== src/Engine.antt =====
-- internal/relayruntime/engine: a volunteer relay's engine.
pub mod LeaseSync
pub mod Credentials
