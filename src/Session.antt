-- ===== src/Session.antt =====
-- internal/session/risk.go: the risk score of a login session.
pub mod Risk
pub mod Score
mod Examples
