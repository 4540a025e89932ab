-- ===== src/Rollback/Controller.antt =====
-- internal/rollback/controller.go: the operations. Each reads the clock once. An `Execute` runs
-- without the lock, so what comes before it and what comes after it, `finish`, are two operations.
use deploy_sentry.Base.{
  if◌then◌else◌, nat_eq, string_eq, ℕ, String, ◌⊎◌, inl, inr, Bool, true, false, not, ◌&&◌, Option,
  none, some, [], ◌∷◌, ◌++◌,
}
use deploy_sentry.Base.Int.{ℤ, pos, ltb_ℤ, leb_ℤ, sub_time}
use deploy_sentry.Base.Dict.{find, put, erase}
use deploy_sentry.Rollout.Floats.{Floats}
use deploy_sentry.Rollback.Model.{
  RollbackDecision, ManualError, Effect, Reason, Job, RollbackState, RollbackContext,
  RollbackTriggerConfig, RollbackController,
}

module _ (fl : Floats) where
  -- `DefaultRollbackTriggerConfig` with its two constants 0.05 and 2.0.
  unfoldable pub default_trigger_config : fl.F → fl.F → RollbackTriggerConfig fl.F
  default_trigger_config five_percent two = record {
    error_rate_threshold = five_percent;
    latency_threshold = two;
    evaluation_duration = pos 120000000000;
  }

  unfoldable pub new_rollback_controller_with_config :
      String → fl.F → ℤ → RollbackTriggerConfig fl.F → ℤ → RollbackController fl.F
  new_rollback_controller_with_config strategy threshold window triggers cooldown = record {
    strategy = strategy;
    health_threshold = threshold;
    evaluation_window = window;
    trigger_config = triggers;
    cooldown_period = cooldown;
    states = [];
    last_rollbacks = [];
    rollback_history = [];
  }

  unfoldable pub new_rollback_controller : fl.F → fl.F → String → fl.F → ℤ → RollbackController fl.F
  unfolding new_rollback_controller_with_config default_trigger_config
  new_rollback_controller five_percent two strategy threshold window =
      new_rollback_controller_with_config strategy threshold window
        (default_trigger_config five_percent two) (pos 300000000000)

  unfoldable pub set_trigger_config :
      RollbackController fl.F → RollbackTriggerConfig fl.F → RollbackController fl.F
  set_trigger_config rc config = record rc { trigger_config = config }

  unfoldable pub set_cooldown_period : RollbackController fl.F → ℤ → RollbackController fl.F
  set_cooldown_period rc period = record rc { cooldown_period = period }

  unfoldable pub fresh_context : RollbackContext fl.F
  fresh_context = record {
    state = RollbackState.healthy;
    unhealthy_since = none;
    last_health_score = fl.zero_f;
    error_rate_exceeded_at = none;
    latency_exceeded_at = none;
  }

  -- `rc.states[id]`
  unfoldable pub context_of : RollbackController fl.F → ℕ → Option (RollbackContext fl.F)
  unfolding find
  context_of rc id = find rc.states id

  unfoldable pub set_context :
      RollbackController fl.F → ℕ → RollbackContext fl.F → RollbackController fl.F
  unfolding put
  set_context rc id ctx = record rc { states = put rc.states id ctx }

  unfoldable pub watch : RollbackController fl.F → ℕ → RollbackController fl.F
  watch rc id = set_context rc id fresh_context

  unfoldable pub unwatch : RollbackController fl.F → ℕ → RollbackController fl.F
  unwatch rc id = record rc { states = erase rc.states id }

  unfoldable pub get_state : RollbackController fl.F → ℕ → Option RollbackState
  get_state rc id = elim (context_of rc id) [ none ↦ none | some ctx ↦ some ctx.state ]

  unfoldable pub is_in_cooldown : RollbackController fl.F → ℕ → ℕ → Bool
  is_in_cooldown rc id now = elim (find rc.last_rollbacks id) [
    | none ↦ false
    | some at ↦ ltb_ℤ (sub_time now at) rc.cooldown_period
  ]

  unfoldable pub record_rollback : RollbackController fl.F → Job fl.F → ℕ → RollbackController fl.F
  record_rollback rc job now = record rc {
    last_rollbacks = put rc.last_rollbacks job.deployment_id now;
    rollback_history =
        rc.rollback_history
        ++ (record {
          deployment_id = job.deployment_id;
          state = RollbackState.rolled_back;
          reason = job.reason;
          health_score = job.score;
          automatic = job.automatic;
          strategy = rc.strategy;
          started_at = now;
          completed_at = some now;
        }
            ∷ []);
  }

  unfoldable pub decide : ℕ → RollbackState → Reason fl.F → fl.F → Bool → ℕ → RollbackDecision fl.F
  decide id state reason score automatic now = record {
    deployment_id = id;
    state = state;
    reason = reason;
    health_score = score;
    automatic = automatic;
    decided_at = now;
  }

  unfoldable pub quiet : RollbackController fl.F → Effect fl.F
  quiet rc = record { controller = rc; decisions = []; started = none }

  -- The start of an `Execute`, with the decision that announces it.
  unfoldable pub start : RollbackController fl.F → RollbackContext fl.F → Job fl.F → ℕ → Effect fl.F
  start rc ctx job now = record {
    controller =
        set_context rc job.deployment_id (record ctx { state = RollbackState.rolling_back });
    decisions =
        decide job.deployment_id RollbackState.rolling_back job.reason job.score job.automatic now
        ∷ [];
    started = some job;
  }

  unfoldable pub unhealthy_long_enough : RollbackController fl.F → RollbackContext fl.F → ℕ → Bool
  unhealthy_long_enough rc ctx now = elim ctx.unhealthy_since [
    | none ↦ false
    | some since ↦ leb_ℤ rc.evaluation_window (sub_time now since)
  ]

  unfoldable pub handle_unhealthy : RollbackController fl.F → ℕ → fl.F → ℕ → Effect fl.F
  handle_unhealthy rc id score now = elim (context_of rc id) [
    | none ↦ quiet rc
    | some ctx ↦ if is_in_cooldown rc id now then quiet rc else elim ctx.state [
      | RollbackState.healthy ↦ record {
        controller =
            set_context rc id
              (record ctx { state = RollbackState.evaluating; unhealthy_since = some now });
        decisions =
            decide id RollbackState.evaluating (Reason.below_threshold score rc.health_threshold)
              score true now
            ∷ [];
        started = none;
      }
      | RollbackState.evaluating ↦
          if unhealthy_long_enough rc ctx now
          then start rc ctx
              (record {
                deployment_id = id;
                reason = Reason.below_for score rc.health_threshold rc.evaluation_window;
                automatic = true;
                score = score;
              })
              now
          else quiet rc
      | RollbackState.rolling_back ↦ quiet rc
      | RollbackState.rolled_back ↦ quiet rc
    ]
  ]

  unfoldable pub handle_healthy : RollbackController fl.F → ℕ → ℕ → Effect fl.F
  handle_healthy rc id now = elim (context_of rc id) [
    | none ↦ quiet rc
    | some ctx ↦ elim ctx.state [
      | RollbackState.healthy ↦ quiet rc
      | RollbackState.evaluating ↦ record {
        controller = set_context rc id (record ctx {
          state = RollbackState.healthy;
          unhealthy_since = none;
          error_rate_exceeded_at = none;
          latency_exceeded_at = none;
        });
        decisions =
            decide id RollbackState.healthy Reason.recovered ctx.last_health_score true now ∷ [];
        started = none;
      }
      | RollbackState.rolling_back ↦ quiet rc
      | RollbackState.rolled_back ↦ quiet rc
    ]
  ]

  -- Of the update, `DeploymentID` and `Overall` are read.
  unfoldable pub on_health_update : RollbackController fl.F → ℕ → fl.F → ℕ → Effect fl.F
  on_health_update rc id overall now = elim (context_of rc id) [
    | none ↦ quiet rc
    | some ctx ↦
        let scored : RollbackController fl.F =
          set_context rc id (record ctx { last_health_score = overall }) in
        if fl.lt overall rc.health_threshold
        then handle_unhealthy scored id overall now
        else handle_healthy scored id now
  ]

  -- `TriggerManualRollback` up to `Execute`.
  unfoldable pub trigger_manual_rollback :
      RollbackController fl.F → ℕ → String → ℕ → ManualError fl.F ⊎ Effect fl.F
  trigger_manual_rollback rc id reason now =
      let go : RollbackContext fl.F → ManualError fl.F ⊎ Effect fl.F = λ ctx.
        if is_in_cooldown rc id now
        then inl ManualError.in_cooldown
        else inr (
            start rc ctx
              (record {
                deployment_id = id;
                reason = Reason.given reason;
                automatic = false;
                score = ctx.last_health_score;
              })
              now) in
      elim (context_of rc id) [
        | none ↦ inl ManualError.not_monitored
        | some ctx ↦ elim ctx.state [
          | RollbackState.healthy ↦ go ctx
          | RollbackState.evaluating ↦ go ctx
          | RollbackState.rolling_back ↦ inl (ManualError.already_in RollbackState.rolling_back)
          | RollbackState.rolled_back ↦ inl (ManualError.already_in RollbackState.rolled_back)
        ]
      ]

  unfoldable pub transition_to :
      RollbackController fl.F → ℕ → RollbackState → Reason fl.F → Bool → ℕ → Effect fl.F
  transition_to rc id state reason automatic now = elim (context_of rc id) [
    | none ↦ record {
      controller = rc;
      decisions = decide id state reason fl.zero_f automatic now ∷ [];
      started = none;
    }
    | some ctx ↦ record {
      controller = set_context rc id (record ctx { state = state });
      decisions = decide id state reason ctx.last_health_score automatic now ∷ [];
      started = none;
    }
  ]

  -- What follows an `Execute` that returned nil (`true`) or an error: the automatic path ignores the
  -- error, the manual one returns it.
  unfoldable pub finish :
      RollbackController fl.F → Job fl.F → Bool → ℕ → ManualError fl.F ⊎ Effect fl.F
  finish rc job succeeded now =
      if not job.automatic && not succeeded
      then inl ManualError.execution_failed
      else inr (
          transition_to (record_rollback rc job now) job.deployment_id RollbackState.rolled_back
            job.reason job.automatic now)
