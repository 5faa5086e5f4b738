-- ===== src/Broker.antt =====
-- internal/broker: the control plane.
pub mod RelayCap
pub mod Ledger
pub mod Challenges
pub mod Store
pub mod SignIn
pub mod Notifier
pub mod Access
