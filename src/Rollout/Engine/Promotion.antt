-- ===== src/Rollout/Engine/Promotion.antt =====
-- internal/rollout/engine/engine.go: when a phase passes.
use deploy_sentry.Base.{
  nat_eq, string_eq, All, ℕ, ◌≡◌, refl, ap, subst, ◌⊎◌, inl, inr, Bool, true, Option, none, some,
  List, [], ◌∷◌, ◌++◌, arith,
}
use deploy_sentry.Base.Int.{◌≤ℤ◌, sub_time}
use deploy_sentry.Rollout.Floats.{Floats}
use deploy_sentry.Rollout.Strategy.{Step}
use deploy_sentry.Rollout.Gates.{HealthScore, evaluate_abort_conditions}
use deploy_sentry.Rollout.Engine.{
  Effect, Poll, done, tick, Round, stop, go_on, Outcome, poll_loop, round,
}

module _ (fl : Floats) where
  open fl use {F, le}

  -- The signals read so far with their times, newest first.
  abbrev pub History : Type 0
  History = List (ℕ × HealthScore fl)

  abbrev pub observe : List (Poll (HealthScore fl)) → History → History
  observe [] h = h
  observe (done ∷ polls) h = observe polls h
  observe (tick now none ∷ polls) h = observe polls h
  observe (tick now (some s) ∷ polls) h = observe polls ((now, s) ∷ h)

  -- Every signal from the one at `since` on was healthy.
  abbrev pub HealthySince : F → ℕ → History → Type 0
  HealthySince threshold since [] = ⊥
  HealthySince threshold since ((t, s) ∷ h) =
      (le threshold s.score ≡ true) × ((t ≡ since) ⊎ HealthySince threshold since h)

  abbrev pub NoTrip : Step F → History → Type 0
  NoTrip step = All (λ o. evaluate_abort_conditions fl step o.1 ≡ none)

  -- The newest signal came after the minimum duration, the signals were healthy for the bake time up
  -- to it, and none ever tripped an abort condition.
  abbrev pub PassesAt : Step F → F → ℕ → History → Type 0
  PassesAt step threshold entered [] = ⊥
  PassesAt step threshold entered ((now, s) ∷ h) =
      NoTrip step ((now, s) ∷ h)
      × (step.min_duration ≤ℤ sub_time now entered)
      × ((since : ℕ) × HealthySince threshold since ((now, s) ∷ h)
          × (step.bake_time_healthy ≤ℤ sub_time now since))

  -- `lastHealthySince` says since when the signals have been healthy.
  abbrev Tracks : F → Option ℕ → History → Type 0
  Tracks threshold none h = Unit
  Tracks threshold (some since) h = HealthySince threshold since h

  module _ (index : ℕ) (step : Step F) (threshold : F) (granted : Bool) (entered : ℕ) where
    round_passed :
        (since : Option ℕ) (now : ℕ) (s : HealthScore fl) (h : History) {calls : List (Effect F)}
        → Tracks threshold since h
        → NoTrip step h
        → round fl index step threshold granted entered since now s ≡ stop Outcome.passed calls
        → PassesAt step threshold entered ((now, s) ∷ h)
    unfolding round
    round_passed none now s h t n e =
        ((ground arith, n), ground arith, (now, (ground arith, inl refl), ground arith))
    round_passed (some u) now s h t n e =
        ((ground arith, n), ground arith, (u, (ground arith, inr t), ground arith))

    round_goes_on :
        (since since' : Option ℕ) (now : ℕ) (s : HealthScore fl) (h : History)
        {calls : List (Effect F)}
        → Tracks threshold since h
        → round fl index step threshold granted entered since now s ≡ go_on since' calls
        → (evaluate_abort_conditions fl step s ≡ none) × Tracks threshold since' ((now, s) ∷ h)
    unfolding round
    round_goes_on since none now s h t e = (ground arith, tt)
    round_goes_on none (some v) now s h t e = (ground arith, (ground arith, inl (ground arith)))
    round_goes_on (some u) (some v) now s h t e = (
      ground arith,
      (ground arith, inr (subst (λ w. HealthySince threshold w h) (ground arith) t)),
    )

    round_stops :
        (since : Option ℕ) (now : ℕ) (s : HealthScore fl) (h : History) (o : Outcome)
        {calls : List (Effect F)}
        → Tracks threshold since h
        → NoTrip step h
        → round fl index step threshold granted entered since now s ≡ stop o calls
        → o ≡ Outcome.passed
        → PassesAt step threshold entered ((now, s) ∷ h)
    round_stops since now s h o {calls} t n e p =
        round_passed since now s h t n (
          subst (λ x. round fl index step threshold granted entered since now s ≡ stop x calls) p e)

    -- A phase that passes has read, after some of its polls, a signal at which it was due: past the
    -- minimum duration, healthy without a break for the bake time, and with no abort condition
    -- tripped by any signal since the phase began.
    pub poll_loop_passed :
        (since : Option ℕ) (polls : List (Poll (HealthScore fl))) (h : History)
        → Tracks threshold since h
        → NoTrip step h
        → (poll_loop fl index step threshold granted entered since polls).0 ≡ Outcome.passed
        → (before after : List (Poll (HealthScore fl))) × (polls ≡ before ++ after)
          × PassesAt step threshold entered (observe before h)
    unfolding poll_loop
    poll_loop_passed since [] h t n e = absurd (ground arith)
    poll_loop_passed since (done ∷ polls) h t n e = absurd (ground arith)
    poll_loop_passed since (tick now none ∷ polls) h t n e =
        let (before, after, q, p) = poll_loop_passed since polls h t n e in
        (tick now none ∷ before, after, ap (λ l. tick now none ∷ l) q, p)
    poll_loop_passed since (tick now (some s) ∷ polls) h t n e =
        by_round (λ u. poll_loop_passed u polls ((now, s) ∷ h))
          (round fl index step threshold granted entered since now s) refl
      where
        by_round :
            ((u : Option ℕ)
              → Tracks threshold u ((now, s) ∷ h)
              → NoTrip step ((now, s) ∷ h)
              → (poll_loop fl index step threshold granted entered u polls).0 ≡ Outcome.passed
              → (before after : List (Poll (HealthScore fl))) × (polls ≡ before ++ after)
                × PassesAt step threshold entered (observe before ((now, s) ∷ h)))
            → (r : Round fl) → round fl index step threshold granted entered since now s ≡ r
            → (before after : List (Poll (HealthScore fl))) × (tick now (some s) ∷ polls
                ≡ before ++ after)
              × PassesAt step threshold entered (observe before h)
        by_round ih (stop o calls) q = (
          tick now (some s) ∷ [],
          polls,
          refl,
          round_stops since now s h o t n q (ground (arith, q)),
        )
        by_round ih (go_on u calls) q =
            let kept = round_goes_on since u now s h t q in
            let (before, after, e', p) = ih u kept.1 (kept.0, n) (ground (arith, q)) in
            (tick now (some s) ∷ before, after, ap (λ l. tick now (some s) ∷ l) e', p)
