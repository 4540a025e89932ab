-- ===== src/Rollout/Validation/Sound.antt =====
-- internal/rollout/validation.go: what `ValidateStrategy` accepts, described without the order of
-- its tests.
use deploy_sentry.Base.{
  Option-cases, nat_eq, string_eq, All, ℕ, suc, ◌≡◌, refl, ◌≢◌, ◌↔◌, inl, inr, true, false, Option,
  none, some, List, [], ◌∷◌, arith, eq_iff,
}
use deploy_sentry.Base.Int.{pos, ◌≤ℤ◌, ◌<ℤ◌}
use deploy_sentry.Rollout.Floats.{Floats}
use deploy_sentry.Rollout.Strategy.{StepApproval, StepAbortCondition, Step, Strategy}
use deploy_sentry.Rollout.Validation.{
  check_all, check_steps, is_valid_abort_operator, check_step, check_conditions, check_condition,
  target_invalid, last_percent, is_valid_abort_metric, validate_strategy,
}

abbrev pub IsWithin : (fl : Floats) → fl.F → fl.F → fl.F → Type 0
IsWithin fl lo hi x = (fl.lt x lo ≡ false) × (fl.lt hi x ≡ false)

abbrev pub ThresholdValid : (fl : Floats) → Option fl.F → Type 0
ThresholdValid fl none = Unit
ThresholdValid fl (some t) = IsWithin fl fl.zero_f fl.one_f t

abbrev pub TimeoutValid : Option StepApproval → Type 0
TimeoutValid none = Unit
TimeoutValid (some a) = pos 0 ≤ℤ a.timeout

pub record IsValidCondition (F : Type 0) (ac : StepAbortCondition F) : Type 0 where
  pub named : ac.metric ≢ ""
  pub known : is_valid_abort_metric ac.metric ≡ true
  pub compares : is_valid_abort_operator ac.operator ≡ true
  pub windowed : pos 0 <ℤ ac.window

pub record IsValidStep (fl : Floats) (st : Step fl.F) : Type 0 where
  pub percent_within : IsWithin fl fl.zero_f fl.hundred st.percent
  pub min_nonneg : pos 0 ≤ℤ st.min_duration
  pub bake_nonneg : pos 0 ≤ℤ st.bake_time_healthy
  pub ordered : st.min_duration ≤ℤ st.max_duration
  pub bakes : pos 0 <ℤ st.max_duration → st.bake_time_healthy ≤ℤ st.max_duration
  pub threshold_valid : ThresholdValid fl st.health_threshold
  pub timeout_valid : TimeoutValid st.approval
  pub conditions_valid : All (IsValidCondition fl.F) st.abort_conditions

-- No step falls below the one before it.
abbrev pub Climbs : (fl : Floats) → fl.F → List (Step fl.F) → Type 0
Climbs fl prev [] = Unit
Climbs fl prev (st ∷ sts) = (fl.lt st.percent prev ≡ false) × Climbs fl st.percent sts

abbrev pub EndsFull : (fl : Floats) → List (Step fl.F) → Type 0
EndsFull fl [] = ⊥
EndsFull fl (st ∷ sts) = fl.eq (last_percent fl st sts) fl.hundred ≡ true

pub record IsValidStrategy (fl : Floats) (s : Strategy fl.F) : Type 0 where
  pub named : s.name ≢ ""
  pub targeted : target_invalid s.target_type ≡ false
  pub default_within : IsWithin fl fl.zero_f fl.one_f s.default_health_threshold
  pub steps_valid : All (IsValidStep fl) s.steps
  pub climbs : Climbs fl fl.minus_one s.steps
  pub ends_full : EndsFull fl s.steps

module _ (fl : Floats) where
  condition_iff :
      (i j : ℕ) (ac : StepAbortCondition fl.F)
      → (check_condition fl i j ac ≡ none) ↔ IsValidCondition fl.F ac
  unfolding check_condition
  condition_iff i j ac =
      (λ h. ground (arith, eq_iff ac.metric ""), λ v. ground (arith, eq_iff ac.metric ""))

  conditions_iff :
      (i j : ℕ) (acs : List (StepAbortCondition fl.F))
      → (check_conditions fl i j acs ≡ none) ↔ All (IsValidCondition fl.F) acs
  unfolding check_conditions
  conditions_iff i j [] = (λ h. tt, λ v. refl)
  conditions_iff i j (ac ∷ acs) = (
    λ h. elim (Option-cases (check_condition fl i j ac)) [
      | inl e ↦ ((condition_iff i j ac).0 e, (conditions_iff i (suc j) acs).0 (ground arith))
      | inr (x, e) ↦ absurd (ground arith)
    ],
    λ v. rw ((condition_iff i j ac).1 v.0, check_conditions) ((conditions_iff i (suc j) acs).1 v.1),
  )

  step_iff :
      (i : ℕ) (prev : fl.F) (st : Step fl.F)
      → (check_step fl i prev st ≡ none) ↔ ((fl.lt st.percent prev ≡ false) × IsValidStep fl st)
  unfolding check_step
  step_iff i prev st = (
    λ h. (
      ground arith,
      record {
        percent_within = ground arith;
        min_nonneg = ground arith;
        bake_nonneg = ground arith;
        ordered = ground arith;
        bakes = ground arith;
        threshold_valid = ground arith;
        timeout_valid = ground arith;
        conditions_valid = (conditions_iff i 0 st.abort_conditions).0 (ground arith);
      },
    ),
    λ v. ground (arith, (conditions_iff i 0 st.abort_conditions).1 v.1.conditions_valid),
  )

  steps_iff :
      (i : ℕ) (prev : fl.F) (sts : List (Step fl.F))
      → (check_steps fl i prev sts ≡ none) ↔ (Climbs fl prev sts × All (IsValidStep fl) sts)
  unfolding check_steps
  steps_iff i prev [] = (λ h. (tt, tt), λ v. refl)
  steps_iff i prev (st ∷ sts) = (
    λ h. elim (Option-cases (check_step fl i prev st)) [
      | inl e ↦
          join ((step_iff i prev st).0 e) ((steps_iff (suc i) st.percent sts).0 (ground arith))
      | inr (x, e) ↦ absurd (ground arith)
    ],
    λ v.
        rw ((step_iff i prev st).1 (v.0.0, v.1.0), check_steps)
          ((steps_iff (suc i) st.percent sts).1 (v.0.1, v.1.1)),
  )
    where
      join :
          (fl.lt st.percent prev ≡ false) × IsValidStep fl st
          → Climbs fl st.percent sts × All (IsValidStep fl) sts
          → Climbs fl prev (st ∷ sts) × All (IsValidStep fl) (st ∷ sts)
      join a b = ((a.0, b.0), (a.1, b.1))

  All-iff :
      (sts : List (Step fl.F))
      → (check_all fl sts ≡ none)
        ↔ (Climbs fl fl.minus_one sts × All (IsValidStep fl) sts × EndsFull fl sts)
  unfolding check_all
  All-iff [] = (λ h. absurd (ground arith), λ v. absurd v.2)
  All-iff (st ∷ sts) = (
    λ h. elim (Option-cases (check_steps fl 0 fl.minus_one (st ∷ sts))) [
      | inl e ↦ join ((steps_iff 0 fl.minus_one (st ∷ sts)).0 e) (ground arith)
      | inr (x, e) ↦ absurd (ground arith)
    ],
    λ v. rw ((steps_iff 0 fl.minus_one (st ∷ sts)).1 (v.0, v.1), check_all) (ground arith),
  )
    where
      join :
          Climbs fl fl.minus_one (st ∷ sts) × All (IsValidStep fl) (st ∷ sts)
          → EndsFull fl (st ∷ sts)
          → Climbs fl fl.minus_one (st ∷ sts)
            × All (IsValidStep fl) (st ∷ sts)
            × EndsFull fl (st ∷ sts)
      join a b = (a.0, a.1, b)

  -- `ValidateStrategy` accepts exactly the valid strategies: a name, a known target type, a default
  -- threshold not outside [0, 1], at least one step, every step valid on its own, no step below the
  -- one before it, and a last step that is equal to 100.
  pub validate_strategy_iff :
      (s : Strategy fl.F) → (validate_strategy fl (some s) ≡ none) ↔ IsValidStrategy fl s
  unfolding validate_strategy
  validate_strategy_iff s = (
    λ h. elim (Option-cases (check_all fl s.steps)) [
      | inl e ↦ record {
        named = ground (arith, eq_iff s.name "");
        targeted = ground arith;
        default_within = ground arith;
        steps_valid = ((All-iff s.steps).0 e).1;
        climbs = ((All-iff s.steps).0 e).0;
        ends_full = ((All-iff s.steps).0 e).2;
      }
      | inr (x, e) ↦ absurd (ground arith)
    ],
    λ v.
        ground
          (arith, eq_iff s.name "", (All-iff s.steps).1 (v.climbs, v.steps_valid, v.ends_full)),
  )
