-- ===== src/Protection.antt =====
-- cmd/infrafence-agent/refusal.go, protstate.go: switching the protection off and on, and the bans that
-- the dashboard has not confirmed.
pub mod Refusal
pub mod SwitchOff
pub mod Outbox
pub mod Reported
pub mod Evictions
mod Examples
