-- ===== src/Rollout/Engine/Driving.antt =====
-- internal/rollout/engine/engine.go: what a whole drive guarantees, and the approval gate.
use deploy_sentry.Base.{
  Bool-cases, nat_eq, string_eq, drop, All, ℕ, ◌≡◌, refl, ◌≢◌, ◌⊎◌, inl, inr, Bool, true, false,
  not, Option, none, some, List, [], ◌∷◌, ◌++◌, map, arith,
}
use deploy_sentry.Rollout.Floats.{Floats}
use deploy_sentry.Rollout.Strategy.{Step}
use deploy_sentry.Rollout.Model.{
  is_passed, Rollout, RolloutPhase, is_awaiting_approval, RolloutStatus,
}
use deploy_sentry.Rollout.Gates.{effective_health_threshold, HealthScore}
use deploy_sentry.Rollout.Engine.{
  polling, Poll, done, tick, Round, stop, go_on, Outcome, poll_loop, round, Effect,
}
use deploy_sentry.Rollout.Engine.Driver.{
  succeeded, drive_listed, run_phase, drive_phases, after_phase, Drive, stopped, PhaseEnv,
  drive_rollout,
}
use deploy_sentry.Rollout.Engine.Promotion.{PassesAt, observe, poll_loop_passed}

module _ (fl : Floats) where
  open fl use {F}

  abbrev outcome_of : Round fl → Outcome
  outcome_of (stop o calls) = o
  outcome_of (go_on since calls) = polling

  -- With the approval granted from the start, no round stops for it.
  round_granted :
      (index : ℕ) (step : Step F) (threshold : F) (entered : ℕ) (since : Option ℕ) (now : ℕ)
      (s : HealthScore fl)
      → outcome_of (round fl index step threshold true entered since now s)
        ≢ Outcome.awaiting_approval
  unfolding round
  round_granted index step threshold entered none now s = ground arith
  round_granted index step threshold entered (some u) now s = ground arith

  poll_loop_granted :
      (index : ℕ) (step : Step F) (threshold : F) (entered : ℕ) (since : Option ℕ)
      (polls : List (Poll (HealthScore fl)))
      → (poll_loop fl index step threshold true entered since polls).0 ≢ Outcome.awaiting_approval
  unfolding poll_loop
  poll_loop_granted index step threshold entered since [] = ground arith
  poll_loop_granted index step threshold entered since (done ∷ polls) = ground arith
  poll_loop_granted index step threshold entered since (tick now none ∷ polls) =
      poll_loop_granted index step threshold entered since polls
  poll_loop_granted index step threshold entered since (tick now (some s) ∷ polls) =
      by_round (λ u. poll_loop_granted index step threshold entered u polls)
        (round fl index step threshold true entered since now s)
        (round_granted index step threshold entered since now s)
    where
      by_round :
          ((u : Option ℕ)
            → (poll_loop fl index step threshold true entered u polls).0
              ≢ Outcome.awaiting_approval)
          → (r : Round fl) → outcome_of r ≢ Outcome.awaiting_approval
          → (let result : Outcome × List (Effect F) = elim r [
            | stop outcome calls ↦ (outcome, calls)
            | go_on u calls ↦
                let (outcome, rest) = poll_loop fl index step threshold true entered u polls in
                (outcome, calls ++ rest)
          ] in
              result.0)
            ≢ Outcome.awaiting_approval
      by_round ih (stop o calls) h = h
      by_round ih (go_on u calls) h = ih u

  abbrev Unawaited : Drive → Type 0
  Unawaited d = d ≢ stopped Outcome.awaiting_approval

  after_phase_granted :
      (r : Outcome × List (Effect F)) (next : Drive × List (Effect F))
      → r.0 ≢ Outcome.awaiting_approval
      → Unawaited next.0
      → Unawaited (after_phase fl r next).0
  unfolding after_phase
  after_phase_granted (Outcome.passed, effects) (others, later) h k = k
  after_phase_granted (o, effects) next h k = ground arith

  run_phase_granted :
      (ro : Rollout F) (phase : RolloutPhase F) (env : PhaseEnv fl)
      → is_awaiting_approval ro.status ≡ false
      → (run_phase fl ro phase env).0 ≢ Outcome.awaiting_approval
  unfolding run_phase
  run_phase_granted ro phase env g = ground (
    arith,
    poll_loop_granted phase.phase_index phase.step_snapshot
        (effective_health_threshold fl ro.strategy_snapshot phase.step_snapshot) env.entered none
        env.polls,
  )

  drive_phases_granted :
      (ro : Rollout F) (runs : List (RolloutPhase F × PhaseEnv fl))
      → is_awaiting_approval ro.status ≡ false
      → Unawaited (drive_phases fl ro runs).0
  unfolding drive_phases
  drive_phases_granted ro [] g = ground arith
  drive_phases_granted ro ((phase, env) ∷ rest) g = elim (Bool-cases (is_passed phase.status)) [
    | inl t ↦ rw (t, drive_phases) (drive_phases_granted ro rest g)
    | inr f ↦
        rw (f, drive_phases)
          (after_phase_granted (run_phase fl ro phase env) (drive_phases fl ro rest)
            (run_phase_granted ro phase env g) (drive_phases_granted ro rest g))
  ]

  drive_listed_granted :
      (ro : Rollout F) (listed : Option (List (RolloutPhase F)))
      (env : RolloutPhase F → PhaseEnv fl)
      → Unawaited (drive_listed fl ro listed env).0
  unfolding drive_listed is_awaiting_approval
  drive_listed_granted ro none env = ground arith
  drive_listed_granted ro (some phases) env =
      drive_phases_granted (record ro { status = RolloutStatus.active })
        (map (λ p. (p, env p)) (drop ro.current_phase_index phases)) refl

  -- The approval gate never holds a rollout: no drive stops for an approval, whatever the steps
  -- require and whatever status the rollout was in, since `DriveRollout` sets the status to active
  -- before it runs a phase.
  pub drive_never_awaits_approval :
      (found : Option (Rollout F)) (existing : Option (List (RolloutPhase F))) (inserted : Bool)
      (listed : Option (List (RolloutPhase F))) (env : RolloutPhase F → PhaseEnv fl)
      → (drive_rollout fl found existing inserted listed env).0 ≢ stopped Outcome.awaiting_approval
  unfolding drive_rollout
  drive_never_awaits_approval none existing inserted listed env = ground arith
  drive_never_awaits_approval (some ro) none inserted listed env = ground arith
  drive_never_awaits_approval (some ro) (some []) inserted listed env =
      ground (arith, drive_listed_granted ro listed env)
  drive_never_awaits_approval (some ro) (some (p ∷ ps)) inserted listed env =
      ground (arith, drive_listed_granted ro listed env)

  -- The phase was passed before, or ran and passed: `Apply` succeeded, and after some of its polls
  -- it was due.
  abbrev pub Cleared : Rollout F → RolloutPhase F → PhaseEnv fl → Type 0
  Cleared ro phase env =
      (is_passed phase.status ≡ true)
      ⊎ ((env.applied ≡ true)
          × ((before after : List (Poll (HealthScore fl))) × (env.polls ≡ before ++ after)
              × PassesAt fl phase.step_snapshot
                  (effective_health_threshold fl ro.strategy_snapshot phase.step_snapshot)
                  env.entered (observe fl before [])))

  run_phase-Cleared :
      (ro : Rollout F) (phase : RolloutPhase F) (env : PhaseEnv fl)
      → (run_phase fl ro phase env).0 ≡ Outcome.passed
      → Cleared ro phase env
  unfolding run_phase
  run_phase-Cleared ro phase env e = inr (
    ground arith,
    poll_loop_passed fl phase.phase_index phase.step_snapshot
        (effective_health_threshold fl ro.strategy_snapshot phase.step_snapshot)
        (not (is_awaiting_approval ro.status)) env.entered none env.polls [] tt tt (ground arith),
  )

  abbrev AllCleared : Rollout F → List (RolloutPhase F × PhaseEnv fl) → Type 0
  AllCleared ro = All (λ r. Cleared ro r.0 r.1)

  after_phase_succeeded :
      (r : Outcome × List (Effect F)) (next : Drive × List (Effect F))
      → (after_phase fl r next).0 ≡ succeeded
      → (r.0 ≡ Outcome.passed) × (next.0 ≡ succeeded)
  unfolding after_phase
  after_phase_succeeded (Outcome.passed, effects) (others, later) e = (refl, e)
  after_phase_succeeded (o, effects) next e = absurd (ground arith)

  drive_phases-Cleared :
      (ro : Rollout F) (runs : List (RolloutPhase F × PhaseEnv fl))
      → (drive_phases fl ro runs).0 ≡ succeeded
      → AllCleared ro runs
  unfolding drive_phases
  drive_phases-Cleared ro [] e = tt
  drive_phases-Cleared ro ((phase, env) ∷ rest) e = elim (Bool-cases (is_passed phase.status)) [
    | inl t ↦ (inl t, drive_phases-Cleared ro rest (rw (t, drive_phases) at e))
    | inr f ↦
        let both =
          after_phase_succeeded (run_phase fl ro phase env) (drive_phases fl ro rest)
            (rw (f, drive_phases) at e) in
        (run_phase-Cleared ro phase env both.0, drive_phases-Cleared ro rest both.1)
  ]

  Cleared-map :
      (ro : Rollout F) (env : RolloutPhase F → PhaseEnv fl) (phases : List (RolloutPhase F))
      → AllCleared ro (map (λ p. (p, env p)) phases)
      → All (λ p. Cleared ro p (env p)) phases
  Cleared-map ro env [] h = tt
  Cleared-map ro env (p ∷ ps) h = (h.0, Cleared-map ro env ps h.1)

  drive_listed-Cleared :
      (ro : Rollout F) (phases : List (RolloutPhase F)) (env : RolloutPhase F → PhaseEnv fl)
      → (drive_listed fl ro (some phases) env).0 ≡ succeeded
      → All (λ p. Cleared ro p (env p)) (drop ro.current_phase_index phases)
  unfolding drive_listed
  drive_listed-Cleared ro phases env e = Cleared-map ro env (drop ro.current_phase_index phases) (
      drive_phases-Cleared (record ro { status = RolloutStatus.active })
        (map (λ p. (p, env p)) (drop ro.current_phase_index phases)) e)

  -- A drive succeeds only if every phase from the current index on is cleared: it had passed before,
  -- or its step was applied and it was healthy for the bake time, past the minimum duration, with no
  -- abort condition tripped.
  pub drive_succeeded-Cleared :
      (ro : Rollout F) (existing : Option (List (RolloutPhase F))) (inserted : Bool)
      (phases : List (RolloutPhase F)) (env : RolloutPhase F → PhaseEnv fl)
      → (drive_rollout fl (some ro) existing inserted (some phases) env).0 ≡ succeeded
      → All (λ p. Cleared ro p (env p)) (drop ro.current_phase_index phases)
  unfolding drive_rollout
  drive_succeeded-Cleared ro none inserted phases env e = absurd (ground arith)
  drive_succeeded-Cleared ro (some []) inserted phases env e =
      drive_listed-Cleared ro phases env (ground arith)
  drive_succeeded-Cleared ro (some (p ∷ ps)) inserted phases env e =
      drive_listed-Cleared ro phases env (ground arith)
