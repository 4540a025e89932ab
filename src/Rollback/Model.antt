-- ===== src/Rollback/Model.antt =====
-- internal/rollback/controller.go: the types.
use deploy_sentry.Base.{nat_eq, string_eq, ℕ, String, Bool, Option, List}
use deploy_sentry.Base.Int.{ℤ}

pub data RollbackState : Type 0 where
  healthy evaluating rolling_back rolled_back : RollbackState

module _ (F : Type 0) where
  -- Durations are in nanoseconds.
  pub record RollbackTriggerConfig : Type 0 where
    pub error_rate_threshold : F
    pub latency_threshold : F
    pub evaluation_duration : ℤ

  -- The texts that `fmt.Sprintf` prints, by what they print.
  pub data Reason : Type 0 where
    given : String → Reason
    below_threshold : F → F → Reason
    below_for : F → F → ℤ → Reason
    recovered : Reason

  pub record RollbackDecision : Type 0 where
    pub deployment_id : ℕ
    pub state : RollbackState
    pub reason : Reason
    pub health_score : F
    pub automatic : Bool
    pub decided_at : ℕ

  -- Its identifier is `uuid.New()`.
  pub record RollbackRecord : Type 0 where
    pub deployment_id : ℕ
    pub state : RollbackState
    pub reason : Reason
    pub health_score : F
    pub automatic : Bool
    pub strategy : String
    pub started_at : ℕ
    pub completed_at : Option ℕ

  pub record RollbackContext : Type 0 where
    pub state : RollbackState
    pub unhealthy_since : Option ℕ
    pub last_health_score : F
    pub error_rate_exceeded_at : Option ℕ
    pub latency_exceeded_at : Option ℕ

  -- The executor and the listeners are outside; of the strategy its name is used.
  pub record RollbackController : Type 0 where
    pub strategy : String
    pub health_threshold : F
    pub evaluation_window : ℤ
    pub trigger_config : RollbackTriggerConfig
    pub cooldown_period : ℤ
    pub states : List (ℕ × RollbackContext)
    pub last_rollbacks : List (ℕ × ℕ)
    pub rollback_history : List RollbackRecord

  -- An `Execute` that has been started, with what is needed when it returns.
  pub record Job : Type 0 where
    pub deployment_id : ℕ
    pub reason : Reason
    pub automatic : Bool
    pub score : F

  -- What an operation leaves: the controller, the decisions the listeners get, and the `Execute` it
  -- starts.
  pub record Effect : Type 0 where
    pub controller : RollbackController
    pub decisions : List RollbackDecision
    pub started : Option Job

  pub data ManualError : Type 0 where
    not_monitored in_cooldown execution_failed : ManualError
    already_in : RollbackState → ManualError
