-- ===== src/Releases.antt =====
-- internal/models/release.go and internal/releases/service.go.
pub mod Model
pub mod Service
pub mod Life
pub mod Tests
