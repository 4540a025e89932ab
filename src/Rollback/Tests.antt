-- ===== src/Rollback/Tests.antt =====
-- internal/rollback on concrete sequences of updates.
use deploy_sentry.Base.{
  nat_eq, string_eq, length, ℕ, zero, suc, ◌≡◌, refl, ◌↔◌, inl, true, false, Option, none, some,
  List, [], ◌∷◌,
}
use deploy_sentry.Base.Int.{ℤ, pos, leb_ℤ, sub_time}
use deploy_sentry.Rollback.Runs.{first_job, with_effect, settle, step, World, Op, after}
use deploy_sentry.Rollback.Model.{RollbackState, ManualError, Reason, Job}
use deploy_sentry.Rollback.Running.{count, Calm, OneRunning}
use deploy_sentry.Rollback.Controller.{
  finish, start, quiet, unhealthy_long_enough, handle_unhealthy, on_health_update, fresh_context,
  set_context, watch, context_of, default_trigger_config, new_rollback_controller_with_config,
  trigger_manual_rollback, is_in_cooldown,
}
use deploy_sentry.Rollback.Verify.{verify_rollback-Verifies, Verifies, Attempt, verify_rollback}
use deploy_sentry.Rollback.Strategies.{select_strategy, execute}
use deploy_sentry.Rollout.Tests.{ints}
use deploy_sentry.Rollback.Running.Count.{after-OneRunning}
use deploy_sentry.Deployment.Status.{DeployStrategyType}
use deploy_sentry.Rollback.Streak.{Streak}
use deploy_sentry.Rollback.Streak.Automatic.{started-Streak}

-- Scores below 50 for 120 nanoseconds start a rollback, and 1000 must lie between two.
abbrev fresh_world : World (Option ℤ)
fresh_world = record {
  controller =
      new_rollback_controller_with_config ints "immediate" (some (pos 50)) (pos 120)
        (default_trigger_config ints (some (pos 5)) (some (pos 2))) (pos 1000);
  running = [];
}

-- The latest first.
abbrev falling : List (Op (Option ℤ))
falling = Op.update 5 (some (pos 30)) 200 ∷ Op.update 5 (some (pos 40)) 100 ∷ Op.watches 5 ∷ []

abbrev begun : Job (Option ℤ)
begun = record {
  deployment_id = 5;
  reason = Reason.below_for (some (pos 20)) (some (pos 50)) (pos 120);
  automatic = true;
  score = some (pos 20);
}

started-Streak_example :
    (begun.deployment_id ≡ 5)
    × (is_in_cooldown ints (after ints fresh_world falling).controller 5 250 ≡ false)
    × (t : ℕ) × Streak ints fresh_world.controller.health_threshold 5 t
        (Op.update 5 (some (pos 20)) 250 ∷ falling)
    × (leb_ℤ fresh_world.controller.evaluation_window (sub_time 250 t) ≡ true)
unfolding new_rollback_controller_with_config on_health_update context_of after step with_effect
    watch set_context handle_unhealthy is_in_cooldown fresh_context unhealthy_long_enough quiet
    start
started-Streak_example =
    started-Streak ints fresh_world falling 5 (some (pos 20)) 250 begun refl refl

after-OneRunning_example :
    OneRunning ints (after ints fresh_world (Op.update 5 (some (pos 20)) 250 ∷ falling))
unfolding Calm count after
after-OneRunning_example =
    after-OneRunning ints fresh_world (Op.update 5 (some (pos 20)) 250 ∷ falling) refl (refl, tt)

-- A deployment that is watched again while its `Execute` is under way gets a second one.
watched_again_runs_twice :
    length
      (after ints fresh_world (
        Op.manual 5 "again" 260 ∷ Op.watches 5 ∷ Op.update 5 (some (pos 20)) 250 ∷ falling)).running
    ≡ 2
unfolding after step settle trigger_manual_rollback context_of watch set_context fresh_context
    is_in_cooldown with_effect on_health_update new_rollback_controller_with_config handle_unhealthy
    unhealthy_long_enough quiet start
watched_again_runs_twice = refl

-- A manual rollback whose `Execute` fails leaves the deployment rolling back, and a second request is
-- refused.
failed_manual_is_stuck :
    trigger_manual_rollback ints
      (after ints fresh_world
        (Op.finished 5 false 20 ∷ Op.manual 5 "bad" 10 ∷ Op.watches 5 ∷ [])).controller
      5
      "retry"
      9000
    ≡ inl (ManualError.already_in RollbackState.rolling_back)
unfolding trigger_manual_rollback context_of after step first_job settle watch set_context
    fresh_context is_in_cooldown new_rollback_controller_with_config with_effect start finish
failed_manual_is_stuck = refl

-- Any attempt but the first reads the health 60.
abbrev meets : ℕ → Attempt ints
meets zero = record { cancelled_before = false; health = none; cancelled_waiting = false }
meets (suc n) = record {
  cancelled_before = false;
  health = some (some (pos 60), true);
  cancelled_waiting = false;
}

verify_rollback-Verifies_example :
    (verify_rollback ints (some (pos 50)) meets (pos 2) ≡ none)
    ↔ Verifies ints (some (pos 50)) meets 0 2
verify_rollback-Verifies_example = verify_rollback-Verifies ints (some (pos 50)) meets (pos 2)

gradual_reaches_zero :
    (execute (λ look. false) (λ call. false) (select_strategy DeployStrategyType.rolling [])).error
    ≡ none
unfolding execute select_strategy
gradual_reaches_zero = refl
