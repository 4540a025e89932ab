-- ===== src/Rollout/Engine/Timeout.antt =====
-- internal/rollout/engine/engine.go: the time-out of a phase.
use deploy_sentry.Base.{
  nat_eq, string_eq, is_some, All, ℕ, ◌+◌, ◌≤◌, ◌<◌, ◌≡◌, Bool, true, false, not, ◌&&◌, none, some,
  List, [], ◌∷◌, ◌++◌, arith,
}
use deploy_sentry.Base.Int.{pos}
use deploy_sentry.Rollout.Floats.{Floats}
use deploy_sentry.Rollout.Strategy.{Step}
use deploy_sentry.Rollout.Gates.{HealthScore, evaluate_abort_conditions}
use deploy_sentry.Rollout.Engine.{
  rollback_effects, unhealthy_at_max_duration, PhaseStatus, update_phase_status,
  update_phase_pointer, Effect, Poll, done, tick, stop, go_on, Outcome, poll_loop, round,
}

module _ (fl : Floats) (index : ℕ) (step : Step (fl.F)) (threshold : fl.F) (granted : Bool)
    (entered : ℕ) where
  open fl use {F, le}

  -- A healthy signal that trips nothing.
  abbrev pub IsFine : HealthScore fl → Type 0
  IsFine s = (evaluate_abort_conditions fl step s ≡ none) × (le threshold s.score ≡ true)

  -- A tick before `bound` whose signal is fine, or could not be read.
  abbrev pub IsFineBefore : ℕ → Poll (HealthScore fl) → Type 0
  IsFineBefore bound done = ⊥
  IsFineBefore bound (tick now none) = Unit
  IsFineBefore bound (tick now (some s)) = (entered ≤ now) × (now < bound) × IsFine s

  -- No approval is asked for, or it is granted.
  abbrev pub IsUngated : Type 0
  IsUngated = is_some step.approval && not granted ≡ false

  round_waits :
      (bake first now : ℕ) (s : HealthScore fl)
      → IsUngated
      → step.bake_time_healthy ≡ pos bake
      → step.max_duration ≡ pos bake
      → entered < first
      → IsFineBefore (entered + bake) (tick now (some s))
      → round fl index step threshold granted entered (some first) now s ≡ go_on (some first) []
  unfolding round
  round_waits bake first now s g b m f h = ground (arith, h, g, b, m)

  round_starts :
      (bake now : ℕ) (s : HealthScore fl)
      → IsUngated
      → step.bake_time_healthy ≡ pos bake
      → step.max_duration ≡ pos bake
      → entered < now
      → IsFineBefore (entered + bake) (tick now (some s))
      → (calls : List (Effect F)) × (round fl index step threshold granted entered none now s
          ≡ go_on (some now) calls)
  unfolding round
  round_starts bake now s g b m f h =
      (update_phase_pointer index entered (some now) ∷ [], ground (arith, h, g, b, m))

  round_times_out :
      (bake first now : ℕ) (s : HealthScore fl)
      → IsUngated
      → step.bake_time_healthy ≡ pos bake
      → step.max_duration ≡ pos bake
      → 0 < bake
      → entered < first
      → first ≤ now
      → entered + bake ≤ now
      → now < first + bake
      → IsFine s
      → (calls : List (Effect F)) × (round fl index step threshold granted entered
            (some first)
            now
            s
          ≡ stop Outcome.rolled_back calls)
  unfolding round
  round_times_out bake first now s g b m p f o e l h = (
    update_phase_status index PhaseStatus.rolled_back none (some now) none (some s.score)
          (some (unhealthy_at_max_duration index))
        ∷ rollback_effects fl (unhealthy_at_max_duration index),
    ground (arith, h, g, b, m),
  )

  module _ (bake : ℕ) (g : IsUngated) (b : step.bake_time_healthy ≡ pos bake)
      (m : step.max_duration ≡ pos bake) (first last : ℕ) (f : entered < first) (s : HealthScore fl)
      (after : List (Poll (HealthScore fl))) where
    loop_times_out :
        (waiting : List (Poll (HealthScore fl)))
        → 0 < bake
        → first ≤ last
        → entered + bake ≤ last
        → last < first + bake
        → IsFine s
        → All (IsFineBefore (entered + bake)) waiting
        → (poll_loop fl index step threshold granted entered
            (some first)
            (waiting ++ tick last (some s) ∷ after)).0
          ≡ Outcome.rolled_back
    unfolding poll_loop
    loop_times_out [] p o e l h w =
        let (calls, q) = round_times_out bake first last s g b m p f o e l h in rw (q, poll_loop)
    loop_times_out (done ∷ waiting) p o e l h w = absurd w.0
    loop_times_out (tick now none ∷ waiting) p o e l h w = loop_times_out waiting p o e l h w.1
    loop_times_out (tick now (some u) ∷ waiting) p o e l h w =
        rw (round_waits bake first now u g b m f w.0, poll_loop)
          (loop_times_out waiting p o e l h w.1)

  -- A step whose bake time is its maximum duration, which validation accepts, is rolled back
  -- although every signal is fine: the first signal comes after the phase is entered, so that when a
  -- tick finds the maximum duration over the bake time is not. The ticks before that one come before
  -- the maximum duration, and it comes before the bake time has passed.
  pub slow_bake_rolled_back :
      (bake first last : ℕ) (s0 s : HealthScore fl) (waiting after : List (Poll (HealthScore fl)))
      → IsUngated
      → step.bake_time_healthy ≡ pos bake
      → step.max_duration ≡ pos bake
      → 0 < bake
      → entered < first
      → first ≤ last
      → entered + bake ≤ last
      → last < first + bake
      → All (IsFineBefore (entered + bake)) (tick first (some s0) ∷ waiting)
      → IsFine s
      → (poll_loop fl index step threshold granted entered none
          (tick first (some s0) ∷ waiting ++ tick last (some s) ∷ after)).0
        ≡ Outcome.rolled_back
  unfolding poll_loop
  slow_bake_rolled_back bake first last s0 s waiting after g b m p f o e l w h =
      let (calls, q) = round_starts bake first s0 g b m f w.0 in
      rw (q, poll_loop) (loop_times_out bake g b m first last f s after waiting p o e l h w.1)
