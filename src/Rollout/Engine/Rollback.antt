-- ===== src/Rollout/Engine/Rollback.antt =====
-- internal/rollout/engine/engine.go: the calls that revert the target and complete the rollout.
use deploy_sentry.Base.{
  drop, map, not, inr, inl, Bool-cases, refl, nat_eq, string_eq, ℕ, ◌+◌, ◌≡◌, Bool, Option, none,
  some, List, [], ◌∷◌, ◌++◌, arith,
}
use deploy_sentry.Rollout.Floats.{Floats}
use deploy_sentry.Rollout.Strategy.{Step}
use deploy_sentry.Rollout.Gates.{effective_health_threshold, HealthScore}
use deploy_sentry.Rollout.Engine.{
  RolloutStatus, is_awaiting_approval, done, RolloutPhase, tick, Rollout, Poll, poll_loop,
  mark_completed, revert, Round, stop, go_on, Outcome, round, Effect,
}
use deploy_sentry.Rollout.Engine.Driver.{
  drive_listed, completion_effects, drive_rollout, after_phase, PhaseEnv, drive_phases, run_phase,
  Drive, stopped,
}
use deploy_sentry.Rollout.Model.{is_passed}

abbrev pub reverting : {F : Type 0} → Effect F → ℕ
reverting revert = 1
reverting _ = 0

abbrev pub completing : {F : Type 0} → Effect F → ℕ
completing mark_completed = 1
completing _ = 0

abbrev pub tally : {F : Type 0} → (Effect F → ℕ) → List (Effect F) → ℕ
tally weight [] = 0
tally weight (e ∷ es) = weight e + tally weight es

tally-append :
    {F : Type 0} (weight : Effect F → ℕ) (xs ys : List (Effect F))
    → tally weight (xs ++ ys) ≡ tally weight xs + tally weight ys
tally-append weight [] ys = omega arith
tally-append weight (x ∷ xs) ys = omega (arith, tally-append weight xs ys)

-- One for a rollback, nothing for any other end of a phase.
abbrev pub rollback_count : Outcome → ℕ
rollback_count Outcome.rolled_back = 1
rollback_count _ = 0

abbrev pub drive_rollback_count : Drive → ℕ
drive_rollback_count (stopped o) = rollback_count o
drive_rollback_count _ = 0

abbrev pub success_count : Drive → ℕ
success_count Drive.succeeded = 1
success_count _ = 0

module _ (fl : Floats) where
  open fl use {F}

  abbrev calls_of : Round fl → List (Effect F)
  calls_of (stop o calls) = calls
  calls_of (go_on since calls) = calls

  abbrev expected : Round fl → ℕ
  expected (stop o calls) = rollback_count o
  expected (go_on since calls) = 0

  abbrev Counted : Round fl → Type 0
  Counted r = (tally reverting (calls_of r) ≡ expected r) × (tally completing (calls_of r) ≡ 0)

  round-Counted :
      (index : ℕ) (step : Step F) (threshold : F) (granted : Bool) (entered : ℕ) (since : Option ℕ)
      (now : ℕ) (s : HealthScore fl)
      → Counted (round fl index step threshold granted entered since now s)
  unfolding round
  round-Counted index step threshold granted entered none now s = (ground arith, ground arith)
  round-Counted index step threshold granted entered (some u) now s = (ground arith, ground arith)

  -- The counts of a result: reverts as its end says, and no completion.
  abbrev PhaseCounted : Outcome × List (Effect F) → Type 0
  PhaseCounted r = (tally reverting r.1 ≡ rollback_count r.0) × (tally completing r.1 ≡ 0)

  PhaseCounted-append :
      (calls : List (Effect F)) (r : Outcome × List (Effect F))
      → tally reverting calls ≡ 0
      → tally completing calls ≡ 0
      → PhaseCounted r
      → PhaseCounted (r.0, calls ++ r.1)
  PhaseCounted-append calls r a b c = (
    omega (arith, tally-append reverting calls r.1),
    omega (arith, tally-append completing calls r.1),
  )

  poll_loop-Counted :
      (index : ℕ) (step : Step F) (threshold : F) (granted : Bool) (entered : ℕ) (since : Option ℕ)
      (polls : List (Poll (HealthScore fl)))
      → PhaseCounted (poll_loop fl index step threshold granted entered since polls)
  unfolding poll_loop
  poll_loop-Counted index step threshold granted entered since [] = (refl, refl)
  poll_loop-Counted index step threshold granted entered since (done ∷ polls) = (refl, refl)
  poll_loop-Counted index step threshold granted entered since (tick now none ∷ polls) =
      poll_loop-Counted index step threshold granted entered since polls
  poll_loop-Counted index step threshold granted entered since (tick now (some s) ∷ polls) =
      by_round (λ u. poll_loop-Counted index step threshold granted entered u polls)
        (round fl index step threshold granted entered since now s)
        (round-Counted index step threshold granted entered since now s)
    where
      by_round :
          ((u : Option ℕ)
            → PhaseCounted (poll_loop fl index step threshold granted entered u polls))
          → (r : Round fl) → Counted r
          → PhaseCounted (elim r [
            | stop outcome calls ↦ (outcome, calls)
            | go_on u calls ↦
                let (outcome, rest) = poll_loop fl index step threshold granted entered u polls in
                (outcome, calls ++ rest)
          ])
      by_round ih (stop o calls) c = c
      by_round ih (go_on u calls) c = PhaseCounted-append calls _ c.0 c.1 (ih u)

  run_phase-Counted :
      (ro : Rollout F) (phase : RolloutPhase F) (env : PhaseEnv fl)
      → PhaseCounted (run_phase fl ro phase env)
  unfolding run_phase
  run_phase-Counted ro phase env = ground (
    arith,
    poll_loop-Counted phase.phase_index phase.step_snapshot
        (effective_health_threshold fl ro.strategy_snapshot phase.step_snapshot)
        (not (is_awaiting_approval ro.status)) env.entered none env.polls,
  )

  -- The counts of a drive before the calls that complete the rollout.
  abbrev DriveCounted : Drive × List (Effect F) → Type 0
  DriveCounted r = (tally reverting r.1 ≡ drive_rollback_count r.0) × (tally completing r.1 ≡ 0)

  after_phase-Counted :
      (r : Outcome × List (Effect F)) (next : Drive × List (Effect F))
      → PhaseCounted r
      → DriveCounted next
      → DriveCounted (after_phase fl r next)
  unfolding after_phase
  after_phase-Counted (Outcome.passed, effects) (others, later) c d = (
    omega (arith, tally-append reverting effects later),
    omega (arith, tally-append completing effects later),
  )
  after_phase-Counted (o, effects) next c d = c

  drive_phases-Counted :
      (ro : Rollout F) (runs : List (RolloutPhase F × PhaseEnv fl))
      → DriveCounted (drive_phases fl ro runs)
  unfolding drive_phases
  drive_phases-Counted ro [] = (refl, refl)
  drive_phases-Counted ro ((phase, env) ∷ rest) = elim (Bool-cases (is_passed phase.status)) [
    | inl t ↦ rw (t, drive_phases) (drive_phases-Counted ro rest)
    | inr f ↦
        rw (f, drive_phases)
          (after_phase-Counted (run_phase fl ro phase env) (drive_phases fl ro rest)
            (run_phase-Counted ro phase env) (drive_phases-Counted ro rest))
  ]

  abbrev ResultCounted : Drive × List (Effect F) → Type 0
  ResultCounted r =
      (tally reverting r.1 ≡ drive_rollback_count r.0) × (tally completing r.1 ≡ success_count r.0)

  completion-Counted :
      (r : Drive × List (Effect F))
      → DriveCounted r
      → ResultCounted (r.0, r.1 ++ completion_effects fl r.0)
  unfolding completion_effects
  completion-Counted (Drive.succeeded, effects) c = (
    omega (arith, tally-append reverting effects (completion_effects fl Drive.succeeded)),
    omega (arith, tally-append completing effects (completion_effects fl Drive.succeeded)),
  )
  completion-Counted (d, effects) c = (
    omega (arith, tally-append reverting effects []),
    omega (arith, tally-append completing effects []),
  )

  drive_listed-Counted :
      (ro : Rollout F) (listed : Option (List (RolloutPhase F)))
      (env : RolloutPhase F → PhaseEnv fl)
      → ResultCounted (drive_listed fl ro listed env)
  unfolding drive_listed
  drive_listed-Counted ro none env = (refl, refl)
  drive_listed-Counted ro (some phases) env = completion-Counted _ (
      drive_phases-Counted (record ro { status = RolloutStatus.active })
        (map (λ p. (p, env p)) (drop ro.current_phase_index phases)))

  -- However a drive ends, the target is reverted once if a phase rolled back and never otherwise,
  -- and the rollout is marked completed once if the drive succeeded and never otherwise.
  pub drive_rollout_counts :
      (found : Option (Rollout F)) (existing : Option (List (RolloutPhase F))) (inserted : Bool)
      (listed : Option (List (RolloutPhase F))) (env : RolloutPhase F → PhaseEnv fl)
      → let r = drive_rollout fl found existing inserted listed env in
        (tally reverting r.1 ≡ drive_rollback_count r.0)
        × (tally completing r.1 ≡ success_count r.0)
  unfolding drive_rollout
  drive_rollout_counts none existing inserted listed env = (refl, refl)
  drive_rollout_counts (some ro) none inserted listed env = ground arith
  drive_rollout_counts (some ro) (some []) inserted listed env =
      ground (arith, drive_listed-Counted ro listed env)
  drive_rollout_counts (some ro) (some (p ∷ ps)) inserted listed env =
      ground (arith, drive_listed-Counted ro listed env)
