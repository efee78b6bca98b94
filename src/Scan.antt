-- ===== src/Scan.antt =====
-- internal/scanwatch/analyzer.go: the detection of port scans.
pub mod Analyzer
pub mod Bounds
pub mod Networks
pub mod Held
pub mod Cooldown
pub mod Detect
mod Examples
