-- ===== src/Staging.antt =====
-- internal/staging: changes that wait for their deploy.
pub mod Provisional
pub mod Model
pub mod Json
pub mod Resolver
pub mod Resolved
pub mod Preflight
pub mod Order
pub mod Handled
pub mod Batch
pub mod Overlay
pub mod Layers
pub mod Commit
pub mod Service
pub mod Atomic
pub mod Tests
