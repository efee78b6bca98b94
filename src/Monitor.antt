-- ===== src/Monitor.antt =====
-- internal/monitor: the detectors that look at the host's connections at intervals.
pub mod Flood
pub mod Counted
pub mod Entries
pub mod Reported
mod Examples
