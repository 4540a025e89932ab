-- ===== src/Flags.antt =====
-- internal/flags: the evaluation of feature flags.
pub mod Targeting
pub mod Evaluation
pub mod Conditions
pub mod Quotes
pub mod Decision
pub mod Tests
