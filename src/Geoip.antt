-- ===== src/Geoip.antt =====
-- internal/geoip: the checks on a downloaded country database, and the networks of a country.
pub mod Metadata
pub mod Value
pub mod Tree
pub mod Nodes
pub mod Steps
pub mod Walk
pub mod Ranges
pub mod Merged
pub mod Blocks
pub mod Cidrs
pub mod Extract
mod Examples
mod Countries
