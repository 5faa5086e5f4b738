-- ===== src/Wss.antt =====
-- internal/wssbridge: the relay-local sidecar behind a CDN front.
pub mod Replay
pub mod Usage
pub mod Ticket
