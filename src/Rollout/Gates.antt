-- ===== src/Rollout/Gates.antt =====
-- internal/rollout/engine/gates.go: the abort conditions of a step and its health threshold.
use deploy_sentry.Base.{
  if◌then◌else◌, ◌==◌, nat_eq, string_eq, String, Bool, false, not, Option, none, some, List, [],
  ◌∷◌,
}
use deploy_sentry.Rollout.Floats.{Floats}
use deploy_sentry.Rollout.Strategy.{StepAbortCondition, Step, Strategy}

module _ (fl : Floats) where
  open fl use {F, lt, le, eq}

  pub record HealthScore : Type 0 where
    pub score : F
    pub error_rate : F
    pub latency_p99_ms : F
    pub latency_p50_ms : F
    pub request_rate : F

  -- `metricValue`: `none` is `ok == false`.
  unfoldable pub metric_value : String → HealthScore → Option F
  metric_value name s =
      if name == "score"
      then some s.score
      else if name == "error_rate"
      then some s.error_rate
      else if name == "latency_p99_ms"
      then some s.latency_p99_ms
      else if name == "latency_p50_ms"
      then some s.latency_p50_ms
      else if name == "request_rate"
      then some s.request_rate
      else none

  unfoldable pub compare_metric : F → String → F → Bool
  compare_metric val op threshold =
      if op == ">"
      then lt threshold val
      else if op == ">="
      then le threshold val
      else if op == "<"
      then lt val threshold
      else if op == "<="
      then le val threshold
      else if op == "=="
      then eq val threshold
      else if op == "!="
      then not (eq val threshold)
      else false

  unfoldable pub trips : StepAbortCondition F → HealthScore → Bool
  unfolding metric_value compare_metric
  trips ac s = elim (metric_value ac.metric s) [
    | none ↦ false
    | some val ↦ compare_metric val ac.operator ac.threshold
  ]

  -- The first condition that trips.
  unfoldable pub first_trip :
      List (StepAbortCondition F) → HealthScore → Option (StepAbortCondition F)
  unfolding trips
  first_trip [] s = none
  first_trip (ac ∷ acs) s = if trips ac s then some ac else first_trip acs s

  unfoldable pub evaluate_abort_conditions : Step F → HealthScore → Option (StepAbortCondition F)
  unfolding first_trip
  evaluate_abort_conditions step s = first_trip step.abort_conditions s

  unfoldable pub effective_health_threshold : Strategy F → Step F → F
  effective_health_threshold strat step = elim step.health_threshold [
    | none ↦ strat.default_health_threshold
    | some t ↦ t
  ]
