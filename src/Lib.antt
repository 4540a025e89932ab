-- ===== src/Lib.antt =====
-- DeploySentry: deployments, progressive rollouts of them and of targeting rules, and the feature
-- flags beside them. This library models the parts of the Go program that decide: the status
-- machines, the validation of strategies, the engine that drives a rollout, and the loops that move
-- traffic.
--
-- The parts, and where they are:
-- - Base: shared tests, equality as an interface, lists, Go's signed integers.
-- - Deployment: internal/models/deployment.go (`TransitionTo` is `transition_to`, `Validate` is
--   `validate`). Deployment/Graph is the status diagram as a step relation, Deployment/Lifecycle the
--   invariant of the times. Deployment/Service is internal/deploy/service.go, one function for each
--   operation that changes state, over the interface of Deployment/Service/Repository; Memory is an
--   instance of it.
-- - Strategies: internal/deploy/strategies. Rolling and Canary are the loops of `Execute`, with the
--   context as an argument.
-- - Rollout: internal/rollout. Strategy and Validation are the records of internal/models/strategy.go
--   and `ValidateStrategy`; Model is a rollout with its phases and events; Gates and Engine are
--   internal/rollout/engine (`runPhase` is `run_phase`, its loop `poll_loop`, one round `round`;
--   `DriveRollout` is `drive_rollout`); Controls is internal/rollout/rollout_service.go (`perform` is
--   the six controls, `transition` their common helper); Coordination is
--   internal/rollout/coordination.go with the part of group_service.go that it calls.
-- - Rollout/Resolver: internal/rollout/resolver.go, the default strategy and the policy of a scope
--   (`resolve` is the common search of `ResolveDefault` and `ResolvePolicy`).
-- - Flags: internal/flags. Targeting is targeting.go with `evaluateRule` and `HashPercentage`,
--   Evaluation is `Evaluate` of evaluator.go.
-- - Access: internal/auth/rbac.go and internal/models/api_key.go. Roles and Scopes are the two tables,
--   Middleware the handlers `ResolveOrgRole`, `RequirePermission` and `ValidateResourceOwnership` over
--   the values of a request's context.
-- - Rollback: internal/rollback. Controller is controller.go with `Execute` between two operations,
--   Triggers is `EvaluateTriggers`, Runs a sequence of operations (`step`), Strategies and Verify are
--   strategies.go.
-- - Staging: internal/staging. Provisional, Resolver, Preflight and Overlay are the files of these
--   names, Commit is registry.go and the loop of `Commit`, Service the rest of service.go. The database
--   is a value of any type, and a transaction a copy of it.
-- - Health: internal/health/scorer.go, the history of scores.
-- - Releases: internal/models/release.go and internal/releases/service.go. `change` of Service is the
--   common form of `Start`, `Pause`, `Rollback` and `Complete`, and `serve` one request. The laws of the
--   repository are those of internal/platform/database/postgres/releases.go, which sets the times of a
--   row by its own clock.
--
-- How the parts interact: the service of deployments and the controls write rows through the
-- interfaces of their repositories; the engine reads a rollout and its phases and answers with the
-- list of its calls in order; a roll-back of a rollout makes the coordinator call the controls on its
-- siblings.
--
-- Conventions. An identifier is a number with 0 for the nil UUID, an instant is a number, a duration
-- is a signed integer. A Go error is an `Option` with `none` for nil, or an enumeration of the
-- source's errors. A method that assigns through a pointer returns the new record. The clock, new
-- identifiers, the context and the answers of the repository are arguments. `float64` is the
-- parameter `Floats`, with the laws of IEEE 754 where a proof needs them, NaN included.
--
-- Bounds and fuel: `loop` of Strategies/Rolling has the number of instances and one as fuel, enough
-- since no batch is empty, and its results say so. The product by a hundred there wraps at 64 bits;
-- its results ask that it fits. All other recursion is structural.
--
-- Not modelled: SQL text, HTTP handlers, the wiring of the commands, network clients, the SDKs and
-- the front ends, which are input and output; tokens and sessions, agents, webhooks and the storage
-- of flags. Reads and writes of different requests are not interleaved,
-- except that other operations may come between the start and the return of a rollback's `Execute`.
pub mod Access
pub mod Base
pub mod Deployment
pub mod Flags
pub mod Health
pub mod Releases
pub mod Rollback
pub mod Rollout
pub mod Staging
pub mod Strategies
