-- ===== src/Rollout.antt =====
-- The rollout engine and its control plane: internal/rollout and the models that it drives.
pub mod Floats
pub mod Strategy
pub mod Validation
pub mod Model
pub mod Gates
pub mod Engine
pub mod Controls
pub mod Coordination
pub mod Resolver
pub mod Tests
pub mod ControlTests
pub mod ResolverTests
pub mod UniqueTests
