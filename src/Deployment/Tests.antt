-- ===== src/Deployment/Tests.antt =====
-- internal/models/deployment.go and internal/deploy/service.go on concrete deployments.
use deploy_sentry.Base.{
  ◌⊎◌, false, true, nat_eq, string_eq, ℕ, ◌≡◌, refl, none, some, List, [], ◌∷◌, arith,
}
use deploy_sentry.Base.Int.{pos}
use deploy_sentry.Deployment.Lifecycle.{Inv, attempt_all, attempt_all-Inv, attempt_all_terminal}
use deploy_sentry.Deployment.Lifecycle.{attempt_all_keeps_start}
use deploy_sentry.Deployment.Status.{
  status_beq, paused, DeployStrategyType, DeployStatus, running, completed,
}
use deploy_sentry.Deployment.Graph.{finish, transition_to_iff, ◌⟶◌}
use deploy_sentry.Deployment.Lifecycle.{terminal_reachable, Accepted}
use deploy_sentry.Deployment.Service.Memory.{update, select, memory, memory-IsLawful}
use deploy_sentry.Deployment.Service.Atomic.{serve_failed, serve-Moves, Moves}
use deploy_sentry.Deployment.Service.Operations.{run, run-Inv, all_timely}
use deploy_sentry.Deployment.Service.{serve, World, Request}
use deploy_sentry.Deployment.{
  cancelled, promoting, rolled_back, validate_transition, DeployMode, transition_to, Deployment,
  is_terminal,
}
use deploy_sentry.Deployment.Service.Repository.{DeployRepo}
use deploy_sentry.Deployment.Service.Store.{Good, Sound}

abbrev fresh : Deployment
fresh = record {
  id = 7;
  application_id = 1;
  environment_id = 2;
  strategy = DeployStrategyType.canary;
  status = DeployStatus.pending;
  artifact = "web";
  version = "1.4.0";
  commit_sha = "ab12";
  traffic_percent = pos 0;
  previous_deployment_id = none;
  flag_test_key = none;
  created_by = 3;
  mode = DeployMode.orchestrate;
  source = none;
  started_at = none;
  completed_at = none;
  created_at = 10;
  updated_at = 10;
}

abbrev started : Deployment
started = record fresh { status = running; started_at = some 11; updated_at = 11 }

abbrev shipped : Deployment
shipped = record started { status = completed; completed_at = some 20; updated_at = 20 }

fresh-Inv : Inv fresh
unfolding is_terminal
fresh-Inv = ground arith

pause_and_finish :
    attempt_all fresh
      ((11, running) ∷ (12, paused) ∷ (13, completed) ∷ (14, running) ∷ (20, completed) ∷ [])
    ≡ shipped
unfolding attempt_all transition_to validate_transition
pause_and_finish = refl

transition_to_iff_example : (transition_to 20 started completed).1 ≡ none
transition_to_iff_example = (transition_to_iff 20 started completed).0.1 finish

attempt_all-Inv_example : Inv (attempt_all fresh ((11, running) ∷ (20, completed) ∷ []))
attempt_all-Inv_example =
    attempt_all-Inv fresh ((11, running) ∷ (20, completed) ∷ []) fresh-Inv (omega arith)

attempt_all_keeps_start_example :
    (attempt_all started ((12, paused) ∷ (15, running) ∷ [])).started_at ≡ some 11
attempt_all_keeps_start_example =
    attempt_all_keeps_start started ((12, paused) ∷ (15, running) ∷ []) 11 refl

attempt_all_terminal_example :
    attempt_all shipped ((30, running) ∷ (31, rolled_back) ∷ []) ≡ shipped
unfolding is_terminal
attempt_all_terminal_example =
    attempt_all_terminal shipped ((30, running) ∷ (31, rolled_back) ∷ []) refl

abbrev repo : DeployRepo
repo = memory (λ s a e. none)

abbrev world : World repo
world = record { db = started ∷ []; published = [] }

serve_failed_example : (serve repo 12 12 (Request.resume 7) world).0 ≡ world
unfolding serve select status_beq
serve_failed_example = serve_failed repo 12 12 (Request.resume 7) world refl

serve-Moves_example :
    (running ⟶ cancelled)
    × Moves repo 7 cancelled world (serve repo 12 13 (Request.cancel 7) world).0
unfolding serve select update transition_to validate_transition
serve-Moves_example =
    serve-Moves repo (memory-IsLawful _) 12 13 cancelled (Request.cancel 7) world started refl refl
      refl

abbrev requests : List (ℕ × ℕ × Request)
requests =
    (12, 13, Request.pause 7)
    ∷ (14, 14, Request.promote 7)
    ∷ (15, 16, Request.resume 7)
    ∷ (17, 17, Request.promote 7)
    ∷ []

world-Good : Good Inv repo 11 world.db
unfolding select is_terminal
world-Good i d e = ground arith

promoted : Deployment
promoted = record started { status = promoting; traffic_percent = pos 100; updated_at = 17 }

run-Inv_example : Sound promoted × ((all_timely requests ≡ false) ⊎ Inv promoted)
unfolding promoted run select update transition_to validate_transition serve
run-Inv_example =
    run-Inv repo (memory-IsLawful _) 11 world requests world-Good (omega arith) 7 promoted refl

terminal_reachable_example :
    ((t : DeployStatus) × ((transition_to 20 started t).1 ≡ none)
      × (is_terminal (transition_to 20 started t).0 ≡ true))
    × ((attempts : List (ℕ × DeployStatus)) × Accepted started attempts
        × ((attempt_all started attempts).status ≡ completed))
unfolding is_terminal
terminal_reachable_example = terminal_reachable 20 started refl refl
