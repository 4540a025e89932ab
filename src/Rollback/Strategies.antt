-- ===== src/Rollback/Strategies.antt =====
-- internal/rollback/strategies.go: how a rollback is carried out. Each strategy sees, before each of
-- its steps, whether the context is done; what it changes outside is the list of its calls.
use deploy_sentry.Base.{
  if◌then◌else◌, ◌==◌, nat_eq, string_eq, length, ℕ, ◌+◌, String, Bool, false, not, ◌&&◌, Option,
  none, some, List, [], ◌∷◌,
}
use deploy_sentry.Base.Int.{ℤ, pos, ltb_ℤ}
use deploy_sentry.Deployment.Status.{DeployStrategyType}

pub record GradualRollbackConfig : Type 0 where
  pub steps : List ℤ
  pub step_delay : ℤ

unfoldable pub default_gradual_rollback_config : GradualRollbackConfig
default_gradual_rollback_config = record {
  steps = pos 50 ∷ pos 25 ∷ pos 10 ∷ pos 0 ∷ [];
  step_delay = pos 30000000000;
}

-- The collaborators are set or not; a flag is named by its identifier.
pub data RollbackStrategy : Type 0 where
  immediate canary_rollback : RollbackStrategy
  gradual : GradualRollbackConfig → RollbackStrategy
  blue_green : Bool → RollbackStrategy
  flag_kill_switch : Bool → ℕ → RollbackStrategy

unfoldable pub strategy_name : RollbackStrategy → String
strategy_name immediate = "immediate"
strategy_name canary_rollback = "canary_rollback"
strategy_name (gradual config) = "gradual"
strategy_name (blue_green shifter) = "blue_green"
strategy_name (flag_kill_switch toggler flag) = "flag_kill_switch"

pub record StrategyConfig : Type 0 where
  pub traffic_shifter : Bool
  pub gradual_config : Option GradualRollbackConfig
  pub flag_toggler : Bool
  pub flag_id : ℕ

pub data StrategyOption : Type 0 where
  with_traffic_shifter : Bool → StrategyOption
  with_gradual_config : GradualRollbackConfig → StrategyOption
  with_flag_toggler : Bool → ℕ → StrategyOption

unfoldable pub apply_option : StrategyConfig → StrategyOption → StrategyConfig
apply_option cfg (with_traffic_shifter shifter) = record cfg { traffic_shifter = shifter }
apply_option cfg (with_gradual_config config) = record cfg { gradual_config = some config }
apply_option cfg (with_flag_toggler toggler flag) = record cfg {
  flag_toggler = toggler;
  flag_id = flag;
}

unfoldable pub apply_options : StrategyConfig → List StrategyOption → StrategyConfig
unfolding apply_option
apply_options cfg [] = cfg
apply_options cfg (opt ∷ opts) = apply_options (apply_option cfg opt) opts

unfoldable pub select_strategy : DeployStrategyType → List StrategyOption → RollbackStrategy
unfolding apply_options default_gradual_rollback_config
select_strategy deployment_type opts =
    let cfg : StrategyConfig =
      apply_options
        (record {
          traffic_shifter = false;
          gradual_config = none;
          flag_toggler = false;
          flag_id = 0;
        })
        opts in
    elim deployment_type [
      | DeployStrategyType.canary ↦ RollbackStrategy.canary_rollback
      | DeployStrategyType.blue_green ↦ RollbackStrategy.blue_green cfg.traffic_shifter
      | DeployStrategyType.rolling ↦ elim cfg.gradual_config [
        | none ↦ RollbackStrategy.gradual default_gradual_rollback_config
        | some config ↦ RollbackStrategy.gradual config
      ]
      | DeployStrategyType.other name ↦ RollbackStrategy.immediate
    ]

pub data Call : Type 0 where
  set_traffic : ℤ → Call
  wait : ℤ → Call
  shift_traffic : String → ℤ → Call
  disable_flag : ℕ → Call

pub data ExecuteError : Type 0 where
  cancelled not_configured : ExecuteError
  failed : Call → ExecuteError

pub record Executed : Type 0 where
  pub calls : List Call
  pub error : Option ExecuteError

unfoldable pub after_call : Call → Executed → Executed
after_call call e = record e { calls = call ∷ e.calls }

unfoldable pub stopped : ExecuteError → Executed
stopped error = record { calls = []; error = some error }

unfoldable pub completed_run : Executed
completed_run = record { calls = []; error = none }

-- `done n` is whether the context is done at the n-th look at it, and `fails` whether a call returns an
-- error.
module _ (done : ℕ → Bool) (fails : Call → Bool) where
  -- The targets of the steps are only printed.
  unfoldable pub execute_steps : ℕ → ℤ → List ℤ → Executed
  unfolding after_call stopped completed_run
  execute_steps look delay [] = completed_run
  execute_steps look delay (target ∷ targets) =
      let rest : Executed = execute_steps (look + 2) delay targets in
      let waits : Bool = not (length targets == 0) && ltb_ℤ (pos 0) delay in
      if done look
      then stopped ExecuteError.cancelled
      else after_call (Call.set_traffic target) (
          if waits
          then if done (look + 1)
            then stopped ExecuteError.cancelled
            else after_call (Call.wait delay) rest
          else rest)

  -- The immediate strategy and that of canaries do nothing but look.
  unfoldable pub execute_immediate : Executed
  unfolding stopped completed_run
  execute_immediate = if done 0 then stopped ExecuteError.cancelled else completed_run

  unfoldable pub execute_canary_rollback : Executed
  unfolding stopped completed_run
  execute_canary_rollback = if done 0 then stopped ExecuteError.cancelled else completed_run

  unfoldable pub execute_blue_green : Bool → Executed
  unfolding after_call stopped completed_run
  execute_blue_green shifter =
      let blue : Call = Call.shift_traffic "blue" (pos 100) in
      let green : Call = Call.shift_traffic "green" (pos 0) in
      if done 0
      then stopped ExecuteError.cancelled
      else if not shifter
      then completed_run
      else if fails blue
      then after_call blue (stopped (ExecuteError.failed blue))
      else if fails green
      then after_call blue (after_call green (stopped (ExecuteError.failed green)))
      else after_call blue (after_call green completed_run)

  unfoldable pub execute_flag_kill_switch : Bool → ℕ → Executed
  unfolding after_call stopped completed_run
  execute_flag_kill_switch toggler flag =
      let off : Call = Call.disable_flag flag in
      if done 0
      then stopped ExecuteError.cancelled
      else if not toggler
      then stopped ExecuteError.not_configured
      else if fails off
      then after_call off (stopped (ExecuteError.failed off))
      else after_call off completed_run

  -- `strategy.Execute`
  unfoldable pub execute : RollbackStrategy → Executed
  unfolding execute_steps execute_immediate execute_canary_rollback execute_blue_green
      execute_flag_kill_switch
  execute immediate = execute_immediate
  execute canary_rollback = execute_canary_rollback
  execute (gradual config) = execute_steps 0 config.step_delay config.steps
  execute (blue_green shifter) = execute_blue_green shifter
  execute (flag_kill_switch toggler flag) = execute_flag_kill_switch toggler flag
