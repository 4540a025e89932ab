-- ===== src/Strategies/Canary.antt =====
-- internal/deploy/strategies/canary.go and bluegreen.go. Of the phase records, which the source makes
-- and discards, the traffic and the order are kept.
pub mod Prefix
use deploy_sentry.Base.{
  ltb, leb, nat_beq, if◌then◌else◌, ltb→lt, lt→ltb, leb→le, nat_beq_iff, tests, Bool-cases,
  Option-cases, Eq, ◌==◌, nat_eq, string_eq, contains, is_some, length, length-append, drop,
  length-drop, all, any, All, ℕ, zero, suc, ◌+◌, ◌-◌, ◌*◌, ◌/◌, ◌%◌, ◌^◌, ◌≤◌, ◌<◌, String, ◌≡◌,
  refl, sym, ap, subst, ◌∙◌, ◌≢◌, ◌↔◌, ◌⊎◌, inl, inr, Bool, true, false, not, ◌&&◌, ◌||◌, Option,
  none, some, List, [], ◌∷◌, ◌++◌, map, arith, eq_iff,
}
use deploy_sentry.Base.Int.{
  ℤ, pos, negsuc, pos_part, neg_part, sub_ℕ, ◌≤ℤ◌, ◌<ℤ◌, ltb_ℤ, leb_ℤ, sub_time,
}
use deploy_sentry.Deployment.{Deployment}
use deploy_sentry.Strategies.Rolling.{Pace, set_traffic}

pub record HealthCheckCriteria (F : Type 0) : Type 0 where
  pub max_error_rate : F
  pub latency_p99_ms : ℤ
  pub custom_metrics : List (String × F)

pub record CanaryStep (F : Type 0) : Type 0 where
  pub traffic_percent : ℤ
  pub duration : ℤ
  pub health_criteria : Option (HealthCheckCriteria F)
  pub auto_promote : Option Bool

pub record CanaryConfig (F : Type 0) : Type 0 where
  pub steps : List (CanaryStep F)
  pub health_check_url : String
  pub health_threshold : F
  pub auto_promote : Bool
  pub rollback_on_failure : Bool

-- 1%, 5%, 25%, 50% and 100%, for 5, 5, 10, 10 and 0 minutes, in nanoseconds.
abbrev pub default_canary_steps : {F : Type 0} → List (CanaryStep F)
default_canary_steps =
    record {
      traffic_percent = pos 1;
      duration = pos 300000000000;
      health_criteria = none;
      auto_promote = none;
    }
    ∷ record {
      traffic_percent = pos 5;
      duration = pos 300000000000;
      health_criteria = none;
      auto_promote = none;
    }
    ∷ record {
      traffic_percent = pos 25;
      duration = pos 600000000000;
      health_criteria = none;
      auto_promote = none;
    }
    ∷ record {
      traffic_percent = pos 50;
      duration = pos 600000000000;
      health_criteria = none;
      auto_promote = none;
    }
    ∷ record {
      traffic_percent = pos 100;
      duration = pos 0;
      health_criteria = none;
      auto_promote = none;
    }
    ∷ []

unfoldable pub is_auto_promote : {F : Type 0} → CanaryStep F → Bool → Bool
is_auto_promote step strategy_default = elim step.auto_promote [
  | some b ↦ b
  | none ↦ strategy_default
]

pub data CanaryError : Type 0 where
  no_steps cancelled : CanaryError

pub record Phase : Type 0 where
  pub percent : ℤ
  pub sort_order : ℕ

abbrev pub CanaryRun : Type 0
CanaryRun = Option CanaryError × (List Phase × Deployment)

-- One step, whether the context is done at its start or before its end, and the run of the others.
unfoldable pub one_step : Bool → Bool → Phase → Deployment → Deployment → CanaryRun → CanaryRun
one_step true interrupted phase d written next = (some cancelled, ([], d))
one_step false true phase d written next = (some cancelled, (phase ∷ [], written))
one_step false false phase d written (error, (phases, final)) = (error, (phase ∷ phases, final))

unfoldable pub canary_loop :
    {F : Type 0} → (ℕ → Pace) → ℕ → List (CanaryStep F) → Deployment → CanaryRun
unfolding one_step set_traffic
canary_loop pace i [] d = (none, ([], d))
canary_loop pace i (step ∷ steps) d =
    let written = set_traffic step.traffic_percent (pace i).written_at d in
    one_step (pace i).done_at_start (ltb_ℤ (pos 0) step.duration && (pace i).done_in_delay)
      (record { percent = step.traffic_percent; sort_order = i }) d written
      (canary_loop pace (suc i) steps written)

unfoldable pub canary_execute : {F : Type 0} → CanaryConfig F → (ℕ → Pace) → Deployment → CanaryRun
unfolding canary_loop
canary_execute config pace d = elim config.steps [
  | [] ↦ (some no_steps, ([], d))
  | step ∷ steps ↦ canary_loop pace 0 (step ∷ steps) d
]

-- `Execute` of blue-green: whether the context is done before the warm-up is over, and the times of
-- the two writes.
unfoldable pub blue_green_execute : ℤ → Bool → ℕ → ℕ → Deployment → Option CanaryError × Deployment
unfolding set_traffic
blue_green_execute warmup done_in_delay first second d =
    let written = set_traffic (pos 0) first d in
    if ltb_ℤ (pos 0) warmup && done_in_delay
    then (some cancelled, written)
    else (none, set_traffic (pos 100) second written)
