-- ===== src/Firewall.antt =====
-- internal/firewall (chain.go, portsegress.go, rules.go, geoblock.go, threatset.go): the agent's chains in
-- the kernel, the dashboard's rules, the blocked countries and the threat feeds.
pub mod Lines
pub mod Jumps
pub mod Ahead
pub mod Placed
pub mod Targets
pub mod Input
pub mod First
pub mod Chain
pub mod Packets
pub mod Covered
pub mod Verdict
pub mod ById
pub mod Holding
pub mod Consistent
pub mod Sync
pub mod Reconciled
pub mod Changes
pub mod Survivors
pub mod Interleaved
pub mod Follows
pub mod Respected
pub mod Exclude
pub mod Excluded
pub mod GeoBlock
pub mod Loading
pub mod Blocked
pub mod Threat
pub mod Spared
pub mod Filtered
mod Examples
mod Scenarios
mod Nations
mod Feeds
mod Races
