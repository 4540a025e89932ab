-- ===== src/Rollout/Engine/Driver.antt =====
-- internal/rollout/engine/engine.go: `runPhase` and `DriveRollout`, over the loop of one phase.
use deploy_sentry.Base.{
  if◌then◌else◌, nat_eq, string_eq, drop, ℕ, Bool, not, Option, none, some, List, [], ◌∷◌, ◌++◌,
  map,
}
use deploy_sentry.Rollout.Floats.{Floats}
use deploy_sentry.Rollout.Model.{
  RolloutStatus, PhaseStatus, EventType, Rollout, RolloutPhase, is_terminal, is_passed,
  is_awaiting_approval,
}
use deploy_sentry.Rollout.Gates.{HealthScore, effective_health_threshold}
use deploy_sentry.Rollout.Engine.{
  publish, emit_event, apply_failed, update_phase_pointer, update_rollout_status, mark_completed,
  insert_phases, apply, update_phase_status, Effect, Outcome, Poll, poll_loop,
}

-- How a run of `DriveRollout` ends: with an error of the repository, at once on a terminal rollout,
-- in a phase that did not pass, or at the end.
pub data Drive : Type 0 where
  get_failed already_terminal list_failed insert_failed succeeded : Drive
  stopped : Outcome → Drive

module _ (fl : Floats) where
  open fl use {F}

  -- What a phase meets: whether `Apply` succeeds, the time it starts, and its polls.
  pub record PhaseEnv : Type 0 where
    pub applied : Bool
    pub entered : ℕ
    pub polls : List (Poll (HealthScore fl))

  unfoldable pub enter_effects : RolloutPhase F → ℕ → List (Effect F)
  enter_effects phase entered =
      update_phase_status phase.phase_index PhaseStatus.active (some entered) none
        (some phase.step_snapshot.percent) none none
      ∷ update_phase_pointer phase.phase_index entered none
      ∷ emit_event EventType.phase_entered
      ∷ publish "rollouts.rollout.phase_entered"
      ∷ []

  unfoldable pub run_phase : Rollout F → RolloutPhase F → PhaseEnv → Outcome × List (Effect F)
  unfolding enter_effects
  run_phase ro phase env =
      let called = apply phase.phase_index phase.step_snapshot.percent in
      if not env.applied
      then (apply_failed, called ∷ [])
      else let (outcome, effects) =
          poll_loop fl phase.phase_index phase.step_snapshot
            (effective_health_threshold fl ro.strategy_snapshot phase.step_snapshot)
            (not (is_awaiting_approval ro.status)) env.entered none env.polls in
        (outcome, called ∷ enter_effects phase env.entered ++ effects)

  -- A phase that passes is followed by the rest; any other ends the drive.
  unfoldable pub after_phase :
      Outcome × List (Effect F) → Drive × List (Effect F) → Drive × List (Effect F)
  after_phase (Outcome.passed, effects) (others, later) = (others, effects ++ later)
  after_phase (o, effects) next = (stopped o, effects)

  -- The loop over `phases[startIdx:]`.
  unfoldable pub drive_phases :
      Rollout F → List (RolloutPhase F × PhaseEnv) → Drive × List (Effect F)
  unfolding after_phase is_passed
  drive_phases ro [] = (succeeded, [])
  drive_phases ro ((phase, env) ∷ rest) =
      let next = drive_phases ro rest in
      if is_passed phase.status then next else after_phase (run_phase ro phase env) next

  unfoldable pub ensure_phases_exist :
      Rollout F → Option (List (RolloutPhase F)) → Bool → Option Drive × List (Effect F)
  ensure_phases_exist ro none inserted = (some list_failed, [])
  ensure_phases_exist ro (some (p ∷ ps)) inserted = (none, [])
  ensure_phases_exist ro (some []) inserted =
      (if inserted then none else some insert_failed, insert_phases ro.strategy_snapshot.steps ∷ [])

  unfoldable pub completion_effects : Drive → List (Effect F)
  completion_effects succeeded =
      mark_completed ∷ emit_event EventType.completed ∷ publish "rollouts.rollout.completed" ∷ []
  completion_effects _ = []

  -- `ro.Status = models.RolloutActive`, the second `ListPhases`, and the phases from
  -- `CurrentPhaseIndex` on.
  unfoldable pub drive_listed :
      Rollout F
      → Option (List (RolloutPhase F))
      → (RolloutPhase F → PhaseEnv)
      → Drive × List (Effect F)
  unfolding drive_phases completion_effects
  drive_listed ro none env = (list_failed, [])
  drive_listed ro (some phases) env =
      let (drive, effects) =
        drive_phases (record ro { status = RolloutStatus.active })
          (map (λ p. (p, env p)) (drop ro.current_phase_index phases)) in
      (drive, effects ++ completion_effects drive)

  -- The answers of the repository are arguments: the rollout, the phases listed first, whether they
  -- are inserted, and the phases listed again.
  unfoldable pub drive_rollout :
      Option (Rollout F)
      → Option (List (RolloutPhase F))
      → Bool
      → Option (List (RolloutPhase F))
      → (RolloutPhase F → PhaseEnv)
      → Drive × List (Effect F)
  unfolding ensure_phases_exist drive_listed
  drive_rollout none existing inserted listed env = (get_failed, [])
  drive_rollout (some ro) existing inserted listed env =
      if is_terminal ro
      then (already_terminal, [])
      else let (failure, ensured) = ensure_phases_exist ro existing inserted in
        elim failure [
          | some drive ↦ (drive, ensured)
          | none ↦
              let (drive, effects) = drive_listed ro listed env in
              (drive, ensured ++ update_rollout_status RolloutStatus.active none ∷ effects)
        ]
