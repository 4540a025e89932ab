-- ===== src/Rollback/Settings.antt =====
-- internal/rollback/controller.go: what no operation changes.
use deploy_sentry.Base.{
  nat_eq, string_eq, ℕ, String, ◌≡◌, refl, ◌∙◌, Bool, Option, none, some, arith,
}
use deploy_sentry.Base.Int.{ℤ}
use deploy_sentry.Rollout.Floats.{Floats}
use deploy_sentry.Rollback.Controller.{
  set_trigger_config, set_cooldown_period, record_rollback, transition_to, unwatch, finish,
  trigger_manual_rollback, context_of, start, watch, quiet, on_health_update, set_context,
  handle_unhealthy, handle_healthy,
}
use deploy_sentry.Rollback.Runs.{Op, settle, World, step, with_effect}
use deploy_sentry.Rollback.Triggers.{evaluate_triggers}
use deploy_sentry.Rollback.Model.{Effect, RollbackContext, RollbackController}
use deploy_sentry.Rollback.Streak.Updates.{scored}

module _ (fl : Floats) where
  -- What no operation changes.
  pub record Settings : Type 0 where
    pub strategy : String
    pub threshold : fl.F
    pub window : ℤ

  unfoldable pub settings : RollbackController fl.F → Settings
  settings rc = record {
    strategy = rc.strategy;
    threshold = rc.health_threshold;
    window = rc.evaluation_window;
  }

  pub settings-set_context :
      (rc : RollbackController fl.F) (id : ℕ) (ctx : RollbackContext fl.F)
      → settings (set_context fl rc id ctx) ≡ settings rc
  unfolding settings set_context
  settings-set_context rc id ctx = refl

  pub settings-handle_unhealthy :
      (rc : RollbackController fl.F) (id : ℕ) (s : fl.F) (now : ℕ)
      → settings (handle_unhealthy fl rc id s now).controller ≡ settings rc
  unfolding settings handle_unhealthy quiet start set_context
  settings-handle_unhealthy rc id s now = ground arith

  pub settings-handle_healthy :
      (rc : RollbackController fl.F) (id now : ℕ)
      → settings (handle_healthy fl rc id now).controller ≡ settings rc
  unfolding settings handle_healthy quiet set_context
  settings-handle_healthy rc id now = ground arith

  pub settings-on_health_update :
      (rc : RollbackController fl.F) (id : ℕ) (s : fl.F) (now : ℕ)
      → settings (on_health_update fl rc id s now).controller ≡ settings rc
  unfolding on_health_update quiet
  settings-on_health_update rc id s now = by_row (context_of fl rc id) refl
    where
      by_row :
          (found : Option (RollbackContext fl.F))
          → context_of fl rc id ≡ found
          → settings (on_health_update fl rc id s now).controller ≡ settings rc
      by_row none eq = ground arith
      by_row (some ctx) eq =
          let kept : RollbackController fl.F = scored fl rc id s now ctx in
          ground (
            arith,
            settings-set_context rc id (record ctx { last_health_score = s }),
            settings-handle_unhealthy kept id s now,
            settings-handle_healthy kept id now,
          )

  pub settings-with_effect :
      (w : World fl.F) (e : Effect fl.F)
      → settings (with_effect fl w e).controller ≡ settings e.controller
  unfolding with_effect
  settings-with_effect w e = ground arith

  pub settings-trigger_manual_rollback :
      (w : World fl.F) (id : ℕ) (reason : String) (now : ℕ)
      → settings (step fl w (Op.manual id reason now)).controller ≡ settings w.controller
  unfolding step settle with_effect trigger_manual_rollback start set_context settings
  settings-trigger_manual_rollback w id reason now = ground arith

  pub settings-evaluate_triggers :
      (rc : RollbackController fl.F) (id : ℕ) (rate p99 : fl.F) (now : ℕ)
      → settings (evaluate_triggers fl rc id rate p99 now).0 ≡ settings rc
  unfolding evaluate_triggers set_context settings
  settings-evaluate_triggers rc id rate p99 now = ground arith

  pub settings-finished :
      (w : World fl.F) (id : ℕ) (ok : Bool) (now : ℕ)
      → settings (step fl w (Op.finished id ok now)).controller ≡ settings w.controller
  unfolding step settle with_effect finish transition_to record_rollback set_context settings
  settings-finished w id ok now = ground arith

  pub settings-step :
      (w : World fl.F) (op : Op fl.F) → settings (step fl w op).controller ≡ settings w.controller
  unfolding step settings set_trigger_config set_cooldown_period watch unwatch set_context
  settings-step w (Op.watches id) = refl
  settings-step w (Op.unwatches id) = refl
  settings-step w (Op.update id s now) =
      settings-with_effect w (on_health_update fl w.controller id s now)
      ∙ settings-on_health_update w.controller id s now
  settings-step w (Op.manual id reason now) = settings-trigger_manual_rollback w id reason now
  settings-step w (Op.triggers id rate p99 now) =
      settings-evaluate_triggers w.controller id rate p99 now
  settings-step w (Op.sets_triggers config) = refl
  settings-step w (Op.sets_cooldown period) = refl
  settings-step w (Op.finished id ok now) = settings-finished w id ok now
