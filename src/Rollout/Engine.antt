-- ===== src/Rollout/Engine.antt =====
-- internal/rollout/engine/engine.go. A phase is run against a list of polls, what the ticker and the
-- context deliver; a list that ends leaves the loop waiting. What the engine does to the repository,
-- the target and the message bus is the list of its calls in order; their errors are ignored there
-- as in the source (`_ = e.repo…`). `App` gives the errors that are not ignored.
pub mod Driver
pub mod Promotion
pub mod Rollback
pub mod Driving
pub mod Timeout
use deploy_sentry.Base.{
  ltb, leb, nat_beq, if◌then◌else◌, ltb→lt, lt→ltb, leb→le, nat_beq_iff, tests, Bool-cases,
  Option-cases, Eq, ◌==◌, nat_eq, string_eq, contains, is_some, length, length-append, drop,
  length-drop, all, any, All, ℕ, zero, suc, ◌+◌, ◌-◌, ◌*◌, ◌/◌, ◌%◌, ◌^◌, ◌≤◌, ◌<◌, String, ◌≡◌,
  refl, sym, ap, subst, ◌∙◌, ◌≢◌, ◌↔◌, ◌⊎◌, inl, inr, Bool, true, false, not, ◌&&◌, ◌||◌, Option,
  none, some, List, [], ◌∷◌, ◌++◌, map, arith, eq_iff,
}
use deploy_sentry.Base.Int.{
  ℤ, pos, negsuc, pos_part, neg_part, sub_ℕ, ◌≤ℤ◌, ◌<ℤ◌, ltb_ℤ, leb_ℤ, sub_time,
}
use deploy_sentry.Rollout.Floats.{Floats}
use deploy_sentry.Rollout.Strategy.{StepAbortCondition, Step, Strategy}
use deploy_sentry.Rollout.Model.{
  RolloutStatus, PhaseStatus, EventType, Rollout, RolloutPhase, is_awaiting_approval,
}
use deploy_sentry.Rollout.Gates.{HealthScore, evaluate_abort_conditions}

-- Why a rollout is rolled back: the texts of the source, before formatting.
pub data Reason (F : Type 0) : Type 0 where
  abort_condition : StepAbortCondition F → Reason F
  unhealthy_at_max_duration : ℕ → Reason F

pub data Effect (F : Type 0) : Type 0 where
  apply : ℕ → F → Effect F
  -- The index of the phase, its status, when it is entered and exited, the percentage applied, the
  -- score, and the reason in the notes.
  update_phase_status :
      ℕ → PhaseStatus → Option ℕ → Option ℕ → Option F → Option F → Option (Reason F) → Effect F
  update_rollout_status : RolloutStatus → Option (Reason F) → Effect F
  update_phase_pointer : ℕ → ℕ → Option ℕ → Effect F
  emit_event : EventType → Effect F
  publish : String → Effect F
  revert : Effect F
  mark_completed : Effect F
  insert_phases : List (Step F) → Effect F

pub data Outcome : Type 0 where
  polling cancelled apply_failed awaiting_approval passed rolled_back : Outcome

-- One delivery to the `select`: the context is done, or a tick at an instant with the signal that
-- `CurrentSignal` reads then (`none` for an error).
pub data Poll (H : Type 0) : Type 0 where
  done : Poll H
  tick : ℕ → Option H → Poll H

module _ (fl : Floats) where
  open fl use {F, le}

  -- What one round of the loop does: end the phase, or go on with a new `lastHealthySince`.
  pub data Round : Type 0 where
    stop : Outcome → List (Effect F) → Round
    go_on : Option ℕ → List (Effect F) → Round

  unfoldable pub rollback_effects : Reason F → List (Effect F)
  rollback_effects why =
      update_rollout_status RolloutStatus.rolled_back (some why)
      ∷ revert
      ∷ emit_event EventType.rollback_triggered
      ∷ publish "rollouts.rollout.rolled_back"
      ∷ []

  -- `lastHealthySince` after a signal, and the call that records it.
  unfoldable pub track : ℕ → ℕ → ℕ → Bool → Option ℕ → Option ℕ × List (Effect F)
  track index entered now true none = (some now, update_phase_pointer index entered (some now) ∷ [])
  track index entered now true (some since) = (some since, [])
  track index entered now false since = (none, update_phase_pointer index entered none ∷ [])

  -- `lastHealthySince != nil && now.Sub(*lastHealthySince) >= BakeTimeHealthy`
  unfoldable pub baked : ℕ → Option ℕ → ℤ → Bool
  baked now none bake = false
  baked now (some since) bake = leb_ℤ bake (sub_time now since)

  -- The rest of a round, once the signal is tracked.
  unfoldable pub decide : ℕ → Step F → ℕ → ℕ → F → Option ℕ → List (Effect F) → Round
  unfolding baked rollback_effects
  decide index step entered now score since calls =
      let elapsed = sub_time now entered in
      if leb_ℤ step.min_duration elapsed && baked now since step.bake_time_healthy
      then stop passed (
          calls
          ++ update_phase_status index PhaseStatus.passed none (some now) none (some score) none
            ∷ emit_event EventType.phase_exited
            ∷ publish "rollouts.rollout.phase_exited"
            ∷ [])
      else if ltb_ℤ (pos 0) step.max_duration
          && leb_ℤ step.max_duration elapsed
          && not (baked now since step.bake_time_healthy)
      then stop rolled_back (
          calls
          ++ update_phase_status index PhaseStatus.rolled_back none (some now) none (some score)
              (some (unhealthy_at_max_duration index))
            ∷ rollback_effects (unhealthy_at_max_duration index))
      else go_on since calls

  unfoldable pub needs_approval : Step F → Bool → Bool
  needs_approval step granted = is_some step.approval && not granted

  -- One round: abort conditions, approval gate, health, promotion, time-out.
  unfoldable pub round : ℕ → Step F → F → Bool → ℕ → Option ℕ → ℕ → HealthScore fl → Round
  unfolding track decide needs_approval
  round index step threshold granted entered since now signal =
      elim (evaluate_abort_conditions fl step signal) [
        | some ac ↦ stop rolled_back (
            update_phase_status index PhaseStatus.rolled_back none (some now) none
              (some signal.score) (some (abort_condition ac))
            ∷ emit_event EventType.abort_condition_tripped
            ∷ rollback_effects (abort_condition ac))
        | none ↦
            if needs_approval step granted
            then stop awaiting_approval (
                update_phase_status index PhaseStatus.awaiting_approval none none none none none
                ∷ update_rollout_status RolloutStatus.awaiting_approval none
                ∷ publish "rollouts.rollout.awaiting_approval"
                ∷ [])
            else let (since', calls) = track index entered now (le threshold signal.score) since in
              decide index step entered now signal.score since' calls
      ]

  unfoldable pub poll_loop :
      ℕ
      → Step F
      → F
      → Bool
      → ℕ
      → Option ℕ
      → List (Poll (HealthScore fl))
      → Outcome × List (Effect F)
  unfolding round
  poll_loop index step threshold granted entered since [] = (polling, [])
  poll_loop index step threshold granted entered since (done ∷ polls) = (cancelled, [])
  poll_loop index step threshold granted entered since (tick now none ∷ polls) =
      poll_loop index step threshold granted entered since polls
  poll_loop index step threshold granted entered since (tick now (some signal) ∷ polls) =
      elim (round index step threshold granted entered since now signal) [
        | stop outcome calls ↦ (outcome, calls)
        | go_on since' calls ↦
            let (outcome, rest) = poll_loop index step threshold granted entered since' polls in
            (outcome, calls ++ rest)
      ]
