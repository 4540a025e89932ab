-- ===== src/Rollout/Validation.antt =====
-- internal/rollout/validation.go: `ValidateStrategy`, with the errors of the source in its order and
-- the index of the step (and of the condition) that an error names.
pub mod Sound
pub mod Percents
use Prim.Native.String.{len}
use text.Mathlib.Text.{starts_with}
use deploy_sentry.Base.{
  ltb, leb, nat_beq, if◌then◌else◌, ltb→lt, lt→ltb, leb→le, nat_beq_iff, tests, Bool-cases,
  Option-cases, Eq, ◌==◌, nat_eq, string_eq, contains, is_some, length, length-append, drop,
  length-drop, all, any, All, ℕ, zero, suc, ◌+◌, ◌-◌, ◌*◌, ◌/◌, ◌%◌, ◌^◌, ◌≤◌, ◌<◌, String, ◌≡◌,
  refl, sym, ap, subst, ◌∙◌, ◌≢◌, ◌↔◌, ◌⊎◌, inl, inr, Bool, true, false, not, ◌&&◌, ◌||◌, Option,
  none, some, List, [], ◌∷◌, ◌++◌, map, arith, eq_iff,
}
use deploy_sentry.Base.Int.{
  ℤ, pos, negsuc, pos_part, neg_part, sub_ℕ, ◌≤ℤ◌, ◌<ℤ◌, ltb_ℤ, leb_ℤ, sub_time,
}
use deploy_sentry.Rollout.Floats.{Floats}
use deploy_sentry.Rollout.Strategy.{
  TargetType, deploy, config, any_target, StepApproval, StepAbortCondition, Step, Strategy,
}

pub data StrategyError : Type 0 where
  nil_strategy name_required invalid_target_type default_threshold_range : StrategyError
  no_steps last_not_full : StrategyError
  percent_range percent_decreases negative_duration min_above_max : ℕ → StrategyError
  bake_above_max threshold_range negative_timeout : ℕ → StrategyError
  metric_required unknown_metric invalid_operator window_not_positive : ℕ → ℕ → StrategyError

abbrev pub valid_abort_operators : List String
valid_abort_operators = ">" ∷ ">=" ∷ "<" ∷ "<=" ∷ "==" ∷ "!=" ∷ []

abbrev pub valid_abort_metrics : List String
valid_abort_metrics =
    "score" ∷ "error_rate" ∷ "latency_p99_ms" ∷ "latency_p50_ms" ∷ "request_rate" ∷ []

unfoldable pub is_valid_abort_metric : String → Bool
unfolding contains
is_valid_abort_metric name =
    contains valid_abort_metrics name
    || (starts_with name "custom:" && ltb (len "custom:") (len name))

unfoldable pub is_valid_abort_operator : String → Bool
unfolding contains
is_valid_abort_operator op = contains valid_abort_operators op

-- `if c { return err }` before the rest.
abbrev pub unless : Bool → StrategyError → Option StrategyError → Option StrategyError
unless true e rest = some e
unless false e rest = rest

abbrev pub timeout_negative : Option StepApproval → Bool
timeout_negative none = false
timeout_negative (some a) = ltb_ℤ a.timeout (pos 0)

abbrev pub target_invalid : TargetType → Bool
target_invalid deploy = false
target_invalid config = false
target_invalid any_target = false
target_invalid (TargetType.other s) = true

module _ (fl : Floats) where
  open fl use {F, lt, eq, minus_one, zero_f, one_f, hundred}

  -- One round of the loop over `st.AbortConditions`.
  unfoldable pub check_condition : ℕ → ℕ → StepAbortCondition F → Option StrategyError
  unfolding is_valid_abort_metric is_valid_abort_operator
  check_condition i j ac = unless (ac.metric == "") (metric_required i j) (
      unless (not (is_valid_abort_metric ac.metric)) (unknown_metric i j) (
        unless (not (is_valid_abort_operator ac.operator)) (invalid_operator i j)
          (unless (leb_ℤ ac.window (pos 0)) (window_not_positive i j) none)))

  unfoldable pub check_conditions : ℕ → ℕ → List (StepAbortCondition F) → Option StrategyError
  check_conditions i j [] = none
  check_conditions i j (ac ∷ acs) = elim (check_condition i j ac) [
    | some e ↦ some e
    | none ↦ check_conditions i (suc j) acs
  ]

  abbrev pub outside : F → F → F → Bool
  outside lo hi x = lt x lo || lt hi x

  abbrev pub threshold_outside : Option F → Bool
  threshold_outside none = false
  threshold_outside (some t) = outside zero_f one_f t

  -- One round of the loop over `s.Steps`, after `prev`.
  unfoldable pub check_step : ℕ → F → Step F → Option StrategyError
  unfolding check_conditions
  check_step i prev st = unless (outside zero_f hundred st.percent) (percent_range i) (
      unless (lt st.percent prev) (percent_decreases i) (
        unless
          (ltb_ℤ st.min_duration (pos 0)
            || ltb_ℤ st.max_duration (pos 0)
            || ltb_ℤ st.bake_time_healthy (pos 0))
          (negative_duration i)
          (unless (ltb_ℤ st.max_duration st.min_duration) (min_above_max i) (
            unless (ltb_ℤ st.max_duration st.bake_time_healthy && ltb_ℤ (pos 0) st.max_duration)
              (bake_above_max i)
              (unless (threshold_outside st.health_threshold) (threshold_range i) (
                unless (timeout_negative st.approval) (negative_timeout i)
                  (check_conditions i 0 st.abort_conditions)))))))

  unfoldable pub check_steps : ℕ → F → List (Step F) → Option StrategyError
  check_steps i prev [] = none
  check_steps i prev (st ∷ sts) = elim (check_step i prev st) [
    | some e ↦ some e
    | none ↦ check_steps (suc i) st.percent sts
  ]

  -- `s.Steps[len(s.Steps)-1].Percent`, where there is a step.
  unfoldable pub last_percent : Step F → List (Step F) → F
  last_percent st [] = st.percent
  last_percent st (next ∷ sts) = last_percent next sts

  unfoldable pub check_all : List (Step F) → Option StrategyError
  unfolding check_steps last_percent
  check_all [] = some no_steps
  check_all (st ∷ sts) = elim (check_steps 0 minus_one (st ∷ sts)) [
    | some e ↦ some e
    | none ↦ unless (not (eq (last_percent st sts) hundred)) last_not_full none
  ]

  unfoldable pub validate_strategy : Option (Strategy F) → Option StrategyError
  unfolding check_all
  validate_strategy none = some nil_strategy
  validate_strategy (some s) = unless (s.name == "") name_required (
      unless (target_invalid s.target_type) invalid_target_type (
        unless (outside zero_f one_f s.default_health_threshold) default_threshold_range
          (check_all s.steps)))
