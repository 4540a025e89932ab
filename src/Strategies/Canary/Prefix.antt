-- ===== src/Strategies/Canary/Prefix.antt =====
-- internal/deploy/strategies/canary.go and bluegreen.go: where an execution leaves the traffic.
use deploy_sentry.Base.{
  Option, nat_eq, string_eq, ℕ, suc, ◌≡◌, refl, ap, ◌∙◌, ◌⊎◌, inl, inr, Bool, true, false, ◌&&◌,
  none, some, List, [], ◌∷◌, ◌++◌, arith,
}
use deploy_sentry.Base.Int.{ℤ, pos, ◌<ℤ◌, ltb_ℤ}
use deploy_sentry.Deployment.{Deployment}
use deploy_sentry.Strategies.Rolling.{Pace, set_traffic}
use deploy_sentry.Strategies.Canary.{
  CanaryStep, CanaryConfig, CanaryError, Phase, CanaryRun, one_step, canary_loop, canary_execute,
  blue_green_execute,
}

-- The traffic of the last of these steps, or the traffic before them.
abbrev pub last_traffic : {F : Type 0} → ℤ → List (CanaryStep F) → ℤ
last_traffic p [] = p
last_traffic p (s ∷ ss) = last_traffic s.traffic_percent ss

-- The phases of these steps, numbered from `i`.
abbrev pub phases_of : {F : Type 0} → ℕ → List (CanaryStep F) → List Phase
phases_of i [] = []
phases_of i (s ∷ ss) = record { percent = s.traffic_percent; sort_order = i } ∷ phases_of (suc i) ss

-- The context is done in the delay of a step, which a step without a duration does not have.
abbrev pub Interrupted : {F : Type 0} → Pace → CanaryStep F → Type 0
Interrupted pace step = (pos 0 <ℤ step.duration) × (pace.done_in_delay ≡ true)

-- How a run that took these steps, numbered from `i`, and left the rest ends: cancelled at the start
-- of the first step left, where the context is done; cancelled in the delay of the last step taken,
-- where it is done; or without an error, no step left. Before its end the context is not done, at the
-- start of a step or in its delay.
abbrev pub Ends :
    {F : Type 0}
    → (ℕ → Pace)
    → ℕ
    → List (CanaryStep F)
    → List (CanaryStep F)
    → Option CanaryError
    → Type 0
Ends pace i [] [] error = error ≡ none
Ends pace i [] (s ∷ rest) error =
    (error ≡ some CanaryError.cancelled) × ((pace i).done_at_start ≡ true)
Ends pace i (s ∷ taken) rest error =
    ((pace i).done_at_start ≡ false)
    × (((error ≡ some CanaryError.cancelled) × (taken ≡ []) × Interrupted (pace i) s)
        ⊎ ((¬ Interrupted (pace i) s) × Ends pace (suc i) taken rest error))

-- A run of the first of the steps in order, with their phases and the traffic of the last of them,
-- that ends where the context says.
abbrev pub RunsPrefix :
    {F : Type 0} → (ℕ → Pace) → ℕ → List (CanaryStep F) → Deployment → CanaryRun → Type 0
RunsPrefix {F} pace i steps d r =
    (taken rest : List (CanaryStep F)) × (steps ≡ taken ++ rest)
    × (r.1.0 ≡ phases_of i taken)
    × (r.1.1.traffic_percent ≡ last_traffic d.traffic_percent taken)
    × Ends pace i taken rest r.0

one_step-RunsPrefix :
    {F : Type 0} (pace : ℕ → Pace) (start interrupted : Bool) (i : ℕ) (step : CanaryStep F)
    (steps : List (CanaryStep F)) (d written : Deployment) (r : CanaryRun)
    → (pace i).done_at_start ≡ start
    → (ltb_ℤ (pos 0) step.duration && (pace i).done_in_delay) ≡ interrupted
    → written.traffic_percent ≡ step.traffic_percent
    → RunsPrefix pace (suc i) steps written r
    → RunsPrefix pace i (step ∷ steps) d (
        one_step start interrupted
          (record { percent = step.traffic_percent; sort_order = i })
          d
          written
          r)
unfolding one_step
one_step-RunsPrefix pace true wait i step steps d written r at_start in_delay e h =
    ([], step ∷ steps, refl, refl, refl, (refl, at_start))
one_step-RunsPrefix pace false true i step steps d written r at_start in_delay e h =
    (step ∷ [], steps, refl, refl, e, (at_start, inl (refl, refl, (ground arith, ground arith))))
one_step-RunsPrefix pace false false i step steps d written r at_start in_delay e
      (taken, rest, split, phases, traffic, ends) =
    (
      step ∷ taken,
      rest,
      ap (λ l. step ∷ l) split,
      ap (λ l. record { percent = step.traffic_percent; sort_order = i } ∷ l) phases,
      traffic ∙ ap (λ p. last_traffic p taken) e,
      (at_start, inr (λ stopped. ground arith, ends)),
    )

canary_loop-RunsPrefix :
    {F : Type 0} (pace : ℕ → Pace) (i : ℕ) (steps : List (CanaryStep F)) (d : Deployment)
    → RunsPrefix pace i steps d (canary_loop pace i steps d)
unfolding canary_loop
canary_loop-RunsPrefix pace i [] d = ([], [], refl, refl, refl, refl)
canary_loop-RunsPrefix pace i (step ∷ steps) d =
    let written = set_traffic step.traffic_percent (pace i).written_at d in
    one_step-RunsPrefix pace (pace i).done_at_start
      (ltb_ℤ (pos 0) step.duration && (pace i).done_in_delay) i step steps d written
      (canary_loop pace (suc i) steps written) refl refl refl
      (canary_loop-RunsPrefix pace (suc i) steps written)

-- A canary execution without steps is refused and leaves the deployment. One with steps runs the
-- first of them in order, a phase for each, and leaves the traffic of the last that it ran. It ends
-- cancelled at the first start of a step, or delay of a step that has a duration, at which the
-- context is done, and without an error, all steps run, when there is none.
pub canary_execute-RunsPrefix :
    {F : Type 0} (config : CanaryConfig F) (pace : ℕ → Pace) (d : Deployment)
    → ((config.steps ≡ []) × (canary_execute config pace d ≡ (some CanaryError.no_steps, ([], d))))
      ⊎ RunsPrefix pace 0 config.steps d (canary_execute config pace d)
unfolding canary_execute
canary_execute-RunsPrefix {F} config pace d = by_steps config.steps refl
  where
    by_steps :
        (steps : List (CanaryStep F))
        → config.steps ≡ steps
        → ((config.steps ≡ [])
            × (canary_execute config pace d ≡ (some CanaryError.no_steps, ([], d))))
          ⊎ RunsPrefix pace 0 config.steps d (canary_execute config pace d)
    by_steps [] e = inl (e, rw (e))
    by_steps (s ∷ ss) e = inr (rw (e) (canary_loop-RunsPrefix pace 0 (s ∷ ss) d))

-- Blue-green leaves all of the traffic when it succeeds and none of it when the context is done
-- before the warm-up is over; without a warm-up it succeeds.
pub blue_green_execute_lem :
    (warmup : ℤ) (done_in_delay : Bool) (first second : ℕ) (d : Deployment)
    → let r = blue_green_execute warmup done_in_delay first second d in
      (((r.0 ≡ none) × (r.1.traffic_percent ≡ pos 100))
        ⊎ ((r.0 ≡ some CanaryError.cancelled) × (r.1.traffic_percent ≡ pos 0) × (pos 0 <ℤ warmup)))
unfolding blue_green_execute
blue_green_execute_lem warmup done_in_delay first second d = ground arith
