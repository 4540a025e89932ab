-- ===== src/Rollout/Tests.antt =====
-- internal/rollout on concrete strategies and rollouts. A float is an integer, or NaN.
use deploy_sentry.Base.{
  ◌*◌, [], ◌+◌, ◌∷◌, ◌↔◌, ◌≢◌, List, ℕ, nat_eq, string_eq, ◌≡◌, refl, Bool, true, false, ◌&&◌,
  Option, none, some, arith,
}
use deploy_sentry.Base.Int.{ℤ, pos, negsuc, ltb_ℤ, leb_ℤ}
use deploy_sentry.Rollout.Floats.{Floats, IsIeee}
use deploy_sentry.Rollout.Engine.{done, tick, Outcome, Effect, poll_loop}
use deploy_sentry.Rollout.Model.{
  is_awaiting_approval, is_terminal, PhaseStatus, RolloutStatus, Rollout, RolloutPhase,
}
use deploy_sentry.Rollout.Strategy.{TargetType, ScopeType, Strategy, Step}
use deploy_sentry.Rollout.Gates.{effective_health_threshold, evaluate_abort_conditions, HealthScore}
use deploy_sentry.Rollout.Engine.Driver.{run_phase, PhaseEnv, drive_rollout, Drive}
use deploy_sentry.Rollout.Engine.Driving.{
  drive_never_awaits_approval, drive_succeeded-Cleared, Cleared,
}
use deploy_sentry.Rollout.Engine.Rollback.{drive_rollout_counts, completing, reverting, tally}
use deploy_sentry.Rollout.Validation.Sound.{IsValidStrategy, validate_strategy_iff, IsValidStep}
use deploy_sentry.Rollout.Validation.Percents.{nan_step_accepted, accepted-IsSorted, IsSorted}
use deploy_sentry.Rollout.Validation.{check_condition, check_step, validate_strategy}
use deploy_sentry.Rollout.Engine.Timeout.{slow_bake_rolled_back}

abbrev compared : (ℤ → ℤ → Bool) → Option ℤ → Option ℤ → Bool
compared test (some a) (some b) = test a b
compared test _ _ = false

abbrev pub ints : Floats
ints = record {
  F = Option ℤ;
  lt = compared ltb_ℤ;
  le = compared leb_ℤ;
  eq = compared (λ a b. leb_ℤ a b && leb_ℤ b a);
  minus_one = some (negsuc 0);
  zero_f = some (pos 0);
  one_f = some (pos 1);
  hundred = some (pos 100);
  of_int = some;
}

ints-not_lt :
    (a b : Option ℤ)
    → ints.eq a a ≡ true
    → ints.eq b b ≡ true
    → ints.lt a b ≡ false
    → ints.le b a ≡ true
ints-not_lt none b p q r = absurd (ground arith)
ints-not_lt (some a) none p q r = absurd (ground arith)
ints-not_lt (some a) (some b) p q r = ground arith

ints-lt_not_le : (a b : Option ℤ) → ints.lt a b ≡ true → ints.le b a ≡ false
ints-lt_not_le none b p = absurd (ground arith)
ints-lt_not_le (some a) none p = absurd (ground arith)
ints-lt_not_le (some a) (some b) p = ground arith

ints-lt_nan : (a b : Option ℤ) → ints.eq a a ≡ false → (ints.lt a b ≡ false) × (ints.lt b a ≡ false)
ints-lt_nan none none p = (refl, refl)
ints-lt_nan none (some b) p = (refl, refl)
ints-lt_nan (some a) b p = absurd (ground arith)

ints-le_trans : (a b c : Option ℤ) → ints.le a b ≡ true → ints.le b c ≡ true → ints.le a c ≡ true
ints-le_trans none b c p q = absurd (ground arith)
ints-le_trans (some a) none c p q = absurd (ground arith)
ints-le_trans (some a) (some b) none p q = absurd (ground arith)
ints-le_trans (some a) (some b) (some c) p q = ground arith

ints-eq_number : (a b : Option ℤ) → ints.eq a b ≡ true → (ints.eq a a ≡ true) × (ints.eq b b ≡ true)
ints-eq_number none b p = absurd (ground arith)
ints-eq_number (some a) none p = absurd (ground arith)
ints-eq_number (some a) (some b) p = ground arith

ints-IsIeee : IsIeee ints
ints-IsIeee = record {
  not_lt = ints-not_lt;
  lt_not_le = ints-lt_not_le;
  lt_nan = ints-lt_nan;
  le_trans = ints-le_trans;
  eq_number = ints-eq_number;
  hundred_number = refl;
  zero_number = refl;
}

abbrev half : Step (Option ℤ)
half = record {
  percent = some (pos 50);
  min_duration = pos 10;
  max_duration = pos 60;
  bake_time_healthy = pos 20;
  health_threshold = none;
  approval = some (record { required_role = "lead"; timeout = pos 30 });
  notify = none;
  abort_conditions =
      record { metric = "error_rate"; operator = ">"; threshold = some (pos 5); window = pos 30 }
      ∷ [];
  signal_override = none;
}

abbrev full : Step (Option ℤ)
full = record half { percent = some (pos 100); approval = none }

abbrev pub gradual : Strategy (Option ℤ)
gradual = record {
  id = 1;
  scope_type = ScopeType.org;
  scope_id = 2;
  name = "gradual";
  description = "";
  target_type = TargetType.deploy;
  steps = half ∷ full ∷ [];
  default_health_threshold = some (pos 1);
  default_rollback_on_failure = true;
  version = pos 1;
  is_system = false;
  created_by = none;
  updated_by = none;
  created_at = 3;
  updated_at = 3;
}

gradual_accepted : validate_strategy ints (some gradual) ≡ none
unfolding validate_strategy check_step check_condition
gradual_accepted = refl

validate_strategy_iff_example :
    (validate_strategy ints (some gradual) ≡ none) ↔ IsValidStrategy ints gradual
validate_strategy_iff_example = validate_strategy_iff ints gradual

accepted-IsSorted_example : IsSorted ints (half ∷ full ∷ [])
accepted-IsSorted_example =
    accepted-IsSorted ints ints-IsIeee gradual (refl, (refl, tt)) gradual_accepted

half-IsValidStep : IsValidStep ints half
half-IsValidStep = ((validate_strategy_iff ints gradual).0 gradual_accepted).steps_valid.0

-- 50%, 100%, NaN, 50%, 100%.
nan_step_accepted_example :
    validate_strategy ints (
      some (record gradual {
        steps = half ∷ full ∷ record half { percent = none } ∷ half ∷ full ∷ [];
      }))
    ≡ none
nan_step_accepted_example =
    nan_step_accepted ints ints-IsIeee gradual gradual half none refl half-IsValidStep
      gradual_accepted gradual_accepted

abbrev well : HealthScore ints
well = record {
  score = some (pos 1);
  error_rate = some (pos 0);
  latency_p99_ms = some (pos 80);
  latency_p50_ms = some (pos 20);
  request_rate = some (pos 9);
}

abbrev pub ongoing : Rollout (Option ℤ)
ongoing = record {
  id = 5;
  release_id = none;
  target_type = TargetType.deploy;
  target_ref = record {
    deployment_id = some "d1";
    flag_key = none;
    env = none;
    rule_id = none;
    previous_percentage = none;
  };
  strategy_snapshot = gradual;
  signal_source = record { kind = "app_env" };
  status = RolloutStatus.awaiting_approval;
  current_phase_index = 0;
  current_phase_started_at = none;
  last_healthy_since = none;
  rollback_reason = none;
  created_by = none;
  created_at = 4;
  completed_at = none;
}

abbrev phase_of : ℕ → Step (Option ℤ) → RolloutPhase (Option ℤ)
phase_of i step = record {
  id = 10 + i;
  rollout_id = 5;
  phase_index = i;
  step_snapshot = step;
  status = PhaseStatus.pending;
  entered_at = none;
  exited_at = none;
  applied_percent = none;
  health_score_at_exit = none;
  notes = "";
}

abbrev env_of : RolloutPhase (Option ℤ) → PhaseEnv ints
env_of phase = record {
  applied = true;
  entered = 100 * phase.phase_index;
  polls =
      tick (100 * phase.phase_index + 5) (some well)
      ∷ tick (100 * phase.phase_index + 15) none
      ∷ tick (100 * phase.phase_index + 25) (some well)
      ∷ [];
}

abbrev both : List (RolloutPhase (Option ℤ))
both = phase_of 0 half ∷ phase_of 1 full ∷ []

abbrev driven : Drive × List (Effect (Option ℤ))
driven = drive_rollout ints (some ongoing) (some both) true (some both) env_of

driven_succeeded : driven.0 ≡ Drive.succeeded
unfolding drive_rollout is_terminal run_phase poll_loop evaluate_abort_conditions
    is_awaiting_approval effective_health_threshold
driven_succeeded = refl

drive_never_awaits_approval_example : driven.0 ≢ Drive.stopped Outcome.awaiting_approval
drive_never_awaits_approval_example =
    drive_never_awaits_approval ints (some ongoing) (some both) true (some both) env_of

drive_succeeded-Cleared_example :
    Cleared ints ongoing (phase_of 0 half) (env_of (phase_of 0 half))
    × (Cleared ints ongoing (phase_of 1 full) (env_of (phase_of 1 full)) × Unit {0})
drive_succeeded-Cleared_example =
    drive_succeeded-Cleared ints ongoing (some both) true both env_of driven_succeeded

drive_rollout_counts_example : (tally reverting driven.1 ≡ 0) × (tally completing driven.1 ≡ 1)
unfolding drive_rollout is_terminal run_phase poll_loop evaluate_abort_conditions
    is_awaiting_approval effective_health_threshold
drive_rollout_counts_example =
    drive_rollout_counts ints (some ongoing) (some both) true (some both) env_of

well_trips_none :
    evaluate_abort_conditions ints (record full { bake_time_healthy = pos 60 }) well ≡ none
unfolding evaluate_abort_conditions
well_trips_none = refl

-- Ticks every ten seconds, all healthy; the phase bakes as long as it may last.
slow_bake_rolled_back_example :
    (poll_loop ints 0
      (record full { bake_time_healthy = pos 60 })
      (some (pos 1))
      true
      100
      none
      (tick 110 (some well) ∷ tick 150 (some well) ∷ tick 160 (some well) ∷ done ∷ [])).0
    ≡ Outcome.rolled_back
slow_bake_rolled_back_example =
    slow_bake_rolled_back ints 0 (record full { bake_time_healthy = pos 60 }) (some (pos 1)) true
      100 60 110 160 well well (tick 150 (some well) ∷ []) (done ∷ []) refl refl refl (ground arith)
      (ground arith) (ground arith) (ground arith) (ground arith)
      (
        (ground arith, ground arith, (well_trips_none, refl)),
        ((ground arith, ground arith, (well_trips_none, refl)), tt),
      )
      (well_trips_none, refl)
