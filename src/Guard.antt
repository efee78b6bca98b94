-- ===== src/Guard.antt =====
-- cmd/infrafence-agent/fwguard.go: the guard that keeps the firewall's chains and sets in place.
pub mod State
pub mod Tick
pub mod Csf
pub mod Events
pub mod History
pub mod Ready
pub mod Repairs
mod Examples
