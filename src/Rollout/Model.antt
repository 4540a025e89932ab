-- ===== src/Rollout/Model.antt =====
-- internal/models/rollout.go, rollout_phase.go, rollout_event.go: a rollout, its phases, its events.
use deploy_sentry.Base.{nat_eq, string_eq, ℕ, String, Bool, true, false, Option}
use deploy_sentry.Base.Int.{ℤ}
use deploy_sentry.Rollout.Strategy.{Step, Strategy, TargetType, SignalSource}

pub data RolloutStatus : Type 0 where
  pending active paused awaiting_approval succeeded rolled_back aborted superseded : RolloutStatus
  other : String → RolloutStatus

pub data PhaseStatus : Type 0 where
  pending active awaiting_approval passed failed rolled_back : PhaseStatus
  other : String → PhaseStatus

pub data EventType : Type 0 where
  attached phase_entered phase_exited paused resumed promoted force_promoted approved : EventType
  abort_condition_tripped rollback_triggered completed superseded : EventType

pub record RolloutTargetRef : Type 0 where
  pub deployment_id : Option String
  pub flag_key : Option String
  pub env : Option String
  pub rule_id : Option String
  pub previous_percentage : Option ℤ

pub record Rollout (F : Type 0) : Type 0 where
  pub id : ℕ
  pub release_id : Option ℕ
  pub target_type : TargetType
  pub target_ref : RolloutTargetRef
  pub strategy_snapshot : Strategy F
  pub signal_source : SignalSource
  pub status : RolloutStatus
  pub current_phase_index : ℕ
  pub current_phase_started_at : Option ℕ
  pub last_healthy_since : Option ℕ
  pub rollback_reason : Option String
  pub created_by : Option ℕ
  pub created_at : ℕ
  pub completed_at : Option ℕ

pub record RolloutPhase (F : Type 0) : Type 0 where
  pub id : ℕ
  pub rollout_id : ℕ
  pub phase_index : ℕ
  pub step_snapshot : Step F
  pub status : PhaseStatus
  pub entered_at : Option ℕ
  pub exited_at : Option ℕ
  pub applied_percent : Option F
  pub health_score_at_exit : Option F
  pub notes : String

unfoldable pub is_terminal_status : RolloutStatus → Bool
is_terminal_status RolloutStatus.succeeded = true
is_terminal_status RolloutStatus.rolled_back = true
is_terminal_status RolloutStatus.aborted = true
is_terminal_status RolloutStatus.superseded = true
is_terminal_status _ = false

unfoldable pub is_terminal : {F : Type 0} → Rollout F → Bool
unfolding is_terminal_status
is_terminal r = is_terminal_status r.status

-- `status == models.RolloutActive` and the other three tests that the code makes.
unfoldable pub is_active : RolloutStatus → Bool
is_active RolloutStatus.active = true
is_active _ = false

unfoldable pub is_paused : RolloutStatus → Bool
is_paused RolloutStatus.paused = true
is_paused _ = false

unfoldable pub is_awaiting_approval : RolloutStatus → Bool
is_awaiting_approval RolloutStatus.awaiting_approval = true
is_awaiting_approval _ = false

unfoldable pub is_passed : PhaseStatus → Bool
is_passed PhaseStatus.passed = true
is_passed _ = false
