-- ===== src/Access.antt =====
-- internal/auth/rbac.go and internal/models/api_key.go: who may do what.
pub mod Roles
pub mod Keys
pub mod Scopes
pub mod Middleware
pub mod Tables
pub mod Decision
pub mod Grants
pub mod Tests
