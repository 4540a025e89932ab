-- ===== src/Rollback/Triggers.antt =====
-- internal/rollback/controller.go, `EvaluateTriggers`. The text of the answer is left out: which of the
-- two thresholds was exceeded stands for it.
use deploy_sentry.Base.{if◌then◌else◌, nat_eq, string_eq, ℕ, Bool, false, Option, none, some}
use deploy_sentry.Base.Int.{ℤ, leb_ℤ, sub_time}
use deploy_sentry.Rollout.Floats.{Floats}
use deploy_sentry.Rollback.Model.{RollbackContext, RollbackController, RollbackTriggerConfig}
use deploy_sentry.Rollback.Controller.{set_context, context_of}

pub data Trigger : Type 0 where
  error_rate_exceeded latency_exceeded : Trigger

-- What the test of one threshold leaves: since when it is exceeded, and whether for long enough.
pub record Watched : Type 0 where
  pub exceeded_at : Option ℕ
  pub fires : Bool

unfoldable pub watch_threshold : Bool → Option ℕ → ℤ → ℕ → Watched
watch_threshold exceeded since duration now =
    if exceeded
    then elim since [
      | none ↦ record { exceeded_at = some now; fires = false }
      | some at ↦ record { exceeded_at = some at; fires = leb_ℤ duration (sub_time now at) }
    ]
    else record { exceeded_at = none; fires = false }

module _ (fl : Floats) where
  unfoldable pub evaluate_context :
      RollbackTriggerConfig fl.F
      → RollbackContext fl.F
      → fl.F
      → fl.F
      → ℕ
      → RollbackContext fl.F × Option Trigger
  evaluate_context cfg ctx error_rate latency_p99 now =
      let e : Watched =
        watch_threshold (fl.lt cfg.error_rate_threshold error_rate) ctx.error_rate_exceeded_at
          cfg.evaluation_duration now in
      let l : Watched =
        watch_threshold (fl.lt cfg.latency_threshold latency_p99) ctx.latency_exceeded_at
          cfg.evaluation_duration now in
      let seen : RollbackContext fl.F = record ctx { error_rate_exceeded_at = e.exceeded_at } in
      if e.fires then (seen, some Trigger.error_rate_exceeded) else (
        record seen { latency_exceeded_at = l.exceeded_at },
        (if l.fires then some Trigger.latency_exceeded else none),
      )

  unfoldable pub evaluate_triggers :
      RollbackController fl.F → ℕ → fl.F → fl.F → ℕ → RollbackController fl.F × Option Trigger
  evaluate_triggers rc id error_rate latency_p99 now = elim (context_of fl rc id) [
    | none ↦ (rc, none)
    | some ctx ↦
        let (after, fired) = evaluate_context rc.trigger_config ctx error_rate latency_p99 now in
        (set_context fl rc id after, fired)
  ]
