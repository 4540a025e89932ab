-- ===== src/Strategies.antt =====
-- internal/deploy/strategies: how a deployment's traffic is moved. A wait is a timer against the
-- context; what the context does is an argument.
pub mod Rolling
pub mod Canary
pub mod Tests
