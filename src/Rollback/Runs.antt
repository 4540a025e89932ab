-- ===== src/Rollback/Runs.antt =====
-- internal/rollback/controller.go: sequences of operations, each under the lock, with the `Execute`s
-- that are under way between them.
use deploy_sentry.Base.{
  if◌then◌else◌, ◌==◌, nat_eq, string_eq, ℕ, String, ◌⊎◌, inl, inr, Bool, Option, none, some, List,
  [], ◌∷◌,
}
use deploy_sentry.Base.Int.{ℤ}
use deploy_sentry.Rollout.Floats.{Floats}
use deploy_sentry.Rollback.Model.{
  RollbackTriggerConfig, ManualError, Effect, Job, RollbackController,
}
use deploy_sentry.Rollback.Controller.{
  set_trigger_config, set_cooldown_period, finish, trigger_manual_rollback, on_health_update,
  unwatch, watch,
}
use deploy_sentry.Rollback.Triggers.{evaluate_triggers}

module _ (F : Type 0) where
  pub record World : Type 0 where
    pub controller : RollbackController F
    pub running : List (Job F)

  -- An operation with its instant. `finished` is the return of the first `Execute` of a deployment.
  pub data Op : Type 0 where
    watches unwatches : ℕ → Op
    update : ℕ → F → ℕ → Op
    manual : ℕ → String → ℕ → Op
    triggers : ℕ → F → F → ℕ → Op
    finished : ℕ → Bool → ℕ → Op
    sets_triggers : RollbackTriggerConfig F → Op
    sets_cooldown : ℤ → Op

module _ (fl : Floats) where
  unfoldable pub with_effect : World fl.F → Effect fl.F → World fl.F
  with_effect w e = elim e.started [
    | none ↦ record w { controller = e.controller }
    | some job ↦ record { controller = e.controller; running = job ∷ w.running }
  ]

  unfoldable pub first_job : List (Job fl.F) → ℕ → Option (Job fl.F)
  first_job [] id = none
  first_job (job ∷ jobs) id = if job.deployment_id == id then some job else first_job jobs id

  unfoldable pub without_job : List (Job fl.F) → ℕ → List (Job fl.F)
  without_job [] id = []
  without_job (job ∷ jobs) id = if job.deployment_id == id then jobs else job ∷ without_job jobs id

  unfoldable pub settle : World fl.F → ManualError fl.F ⊎ Effect fl.F → World fl.F
  settle w (inl error) = w
  settle w (inr e) = with_effect w e

  unfoldable pub step : World fl.F → Op fl.F → World fl.F
  step w (watches id) = record w { controller = watch fl w.controller id }
  step w (unwatches id) = record w { controller = unwatch fl w.controller id }
  step w (update id overall now) = with_effect w (on_health_update fl w.controller id overall now)
  step w (manual id reason now) = settle w (trigger_manual_rollback fl w.controller id reason now)
  step w (triggers id rate p99 now) =
      let (rc, fired) = evaluate_triggers fl w.controller id rate p99 now in
      record w { controller = rc }
  step w (sets_triggers config) = record w {
    controller = set_trigger_config fl w.controller config;
  }
  step w (sets_cooldown period) = record w {
    controller = set_cooldown_period fl w.controller period;
  }
  step w (finished id succeeded now) = elim (first_job w.running id) [
    | none ↦ w
    | some job ↦
        settle (record w { running = without_job w.running id })
          (finish fl w.controller job succeeded now)
  ]

  -- The operations, the latest first.
  unfoldable pub after : World fl.F → List (Op fl.F) → World fl.F
  after w [] = w
  after w (op ∷ ops) = step (after w ops) op
