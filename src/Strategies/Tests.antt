-- ===== src/Strategies/Tests.antt =====
-- internal/deploy/strategies on concrete deployments.
use deploy_sentry.Base.{
  nat_eq, string_eq, ℕ, ◌+◌, ◌≡◌, refl, ◌≢◌, ◌⊎◌, true, false, none, some, [], ◌∷◌, arith,
}
use deploy_sentry.Base.Int.{pos}
use deploy_sentry.Deployment.{Deployment}
use deploy_sentry.Deployment.Status.{DeployStrategyType, DeployStatus, DeployMode}
use deploy_sentry.Strategies.Rolling.{out_of_fuel, RollingConfig, Pace, execute}
use deploy_sentry.Strategies.Rolling.Batches.{Steps, last_percent, execute_batches}
use deploy_sentry.Strategies.Rolling.Completion.{execute_completes, sizes}
use deploy_sentry.Strategies.Canary.{
  CanaryConfig, canary_execute, default_canary_steps, CanaryError,
}
use deploy_sentry.Strategies.Canary.Prefix.{RunsPrefix, canary_execute-RunsPrefix}

abbrev fresh : Deployment
fresh = record {
  id = 7;
  application_id = 1;
  environment_id = 2;
  strategy = DeployStrategyType.canary;
  status = DeployStatus.running;
  artifact = "web";
  version = "1.4.0";
  commit_sha = "ab12";
  traffic_percent = pos 0;
  previous_deployment_id = none;
  flag_test_key = none;
  created_by = 3;
  mode = DeployMode.orchestrate;
  source = none;
  started_at = none;
  completed_at = none;
  created_at = 10;
  updated_at = 10;
}

abbrev seven : RollingConfig Unit
seven = record {
  batch_size = pos 4;
  batch_delay = pos 30;
  max_unavailable = pos 1;
  max_surge = pos 3;
  health_check_url = "";
  health_threshold = tt;
  rollback_on_failure = true;
  total_instances = pos 7;
}

abbrev quiet : ℕ → Pace
quiet i = record { done_at_start = false; done_in_delay = false; written_at = 100 + i }

-- Batches of 3, 3 and 1.
three_batches :
    (execute seven quiet fresh).1.0
    ≡ record { size = 3; surge = 3; percent = pos 42; sort_order = 0 }
      ∷ record { size = 3; surge = 3; percent = pos 85; sort_order = 1 }
      ∷ record { size = 1; surge = 1; percent = pos 100; sort_order = 2 }
      ∷ []
unfolding execute
three_batches = refl

execute_batches_example :
    ((execute seven quiet fresh).0 ≢ some out_of_fuel)
    × Steps 7 4 (pos 3) 0 (execute seven quiet fresh).1.0
    × ((execute seven quiet fresh).1.1.traffic_percent
        ≡ last_percent (pos 0) (execute seven quiet fresh).1.0)
execute_batches_example =
    execute_batches seven quiet fresh (omega arith) (omega arith) (omega arith)

execute_completes_example :
    ((execute seven quiet fresh).0 ≡ none)
    × (sizes (execute seven quiet fresh).1.0 ≡ 7)
    × ((execute seven quiet fresh).1.1.traffic_percent ≡ pos 100)
execute_completes_example =
    execute_completes seven quiet fresh (omega arith) (omega arith) (omega arith)
      (λ i. (refl, refl))

abbrev usual : CanaryConfig Unit
usual = record {
  steps = default_canary_steps;
  health_check_url = "";
  health_threshold = tt;
  auto_promote = true;
  rollback_on_failure = true;
}

canary_execute-RunsPrefix_example :
    ((usual.steps ≡ [])
      × (canary_execute usual quiet fresh ≡ (some CanaryError.no_steps, ([], fresh))))
    ⊎ RunsPrefix quiet 0 usual.steps fresh (canary_execute usual quiet fresh)
canary_execute-RunsPrefix_example = canary_execute-RunsPrefix usual quiet fresh
