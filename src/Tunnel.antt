-- ===== src/Tunnel.antt =====
-- internal/tunnel: the relay hub's side of a reverse tunnel.
pub mod Ports
