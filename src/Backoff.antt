-- ===== src/Backoff.antt =====
-- internal/backoff/gate.go: how the agent waits when the dashboard refuses it.
pub mod Reply
pub mod Delay
pub mod Gate
pub mod Rounds
pub mod History
pub mod Streak
mod Examples
