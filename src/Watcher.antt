-- ===== src/Watcher.antt =====
-- internal/watcher/botscore.go: the bot scores of addresses.
pub mod Scores
pub mod Decay
mod Examples
