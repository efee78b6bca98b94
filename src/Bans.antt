-- ===== src/Bans.antt =====
-- internal/firewall/bans.go, iptables.go: the bans that the agent holds.
pub mod Registry
pub mod Commands
pub mod Order
pub mod Unique
pub mod Room
pub mod Capacity
pub mod Invariant
pub mod Kept
pub mod Rows
pub mod Life
pub mod Expiry
pub mod Effect
mod Examples
