-- ===== src/Core.antt =====
-- connectcore: the client engine's own logic.
pub mod Breaker
pub mod Outbox
pub mod Ranker
