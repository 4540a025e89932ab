-- ===== src/Health.antt =====
-- internal/health/scorer.go: the history of scores.
pub mod History
pub mod Latest
pub mod Tests
