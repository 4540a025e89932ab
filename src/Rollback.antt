-- ===== src/Rollback.antt =====
-- internal/rollback: the controller that rolls an unhealthy deployment back, and its strategies.
pub mod Model
pub mod Controller
pub mod Strategies
pub mod Verify
pub mod Triggers
pub mod Runs
pub mod Settings
pub mod Running
pub mod Streak
pub mod Tests
