-- ===== src/Deployment.antt =====
-- internal/models/deployment.go: the deployment, its transitions and its validation. An identifier
-- is a number with 0 for `uuid.Nil`, an instant is a number, a Go error is an `Option` with `none`
-- for `nil`, and a method that assigns to `*Deployment` returns the new record.
pub mod Status
pub mod Graph
pub mod Lifecycle
pub mod Service
pub mod Tests
use deploy_sentry.Base.{
  ltb, leb, nat_beq, if◌then◌else◌, ltb→lt, lt→ltb, leb→le, nat_beq_iff, tests, Bool-cases,
  Option-cases, Eq, ◌==◌, nat_eq, string_eq, contains, is_some, length, length-append, drop,
  length-drop, all, any, All, ℕ, zero, suc, ◌+◌, ◌-◌, ◌*◌, ◌/◌, ◌%◌, ◌^◌, ◌≤◌, ◌<◌, String, ◌≡◌,
  refl, sym, ap, subst, ◌∙◌, ◌≢◌, ◌↔◌, ◌⊎◌, inl, inr, Bool, true, false, not, ◌&&◌, ◌||◌, Option,
  none, some, List, [], ◌∷◌, ◌++◌, map, arith, eq_iff,
}
use deploy_sentry.Base.Int.{
  ℤ, pos, negsuc, pos_part, neg_part, sub_ℕ, ◌≤ℤ◌, ◌<ℤ◌, ltb_ℤ, leb_ℤ, sub_time,
}
use Status.{
  DeployStatus, pending, running, paused, promoting, completed, failed, rolled_back, cancelled,
  DeployStrategyType, DeployMode, status_beq, status_eq, valid_transitions,
}

pub record Deployment : Type 0 where
  pub id : ℕ
  pub application_id : ℕ
  pub environment_id : ℕ
  pub strategy : DeployStrategyType
  pub status : DeployStatus
  pub artifact : String
  pub version : String
  pub commit_sha : String
  pub traffic_percent : ℤ
  pub previous_deployment_id : Option ℕ
  pub flag_test_key : Option String
  pub created_by : ℕ
  pub mode : DeployMode
  pub source : Option String
  pub started_at : Option ℕ
  pub completed_at : Option ℕ
  pub created_at : ℕ
  pub updated_at : ℕ

pub data DeployError : Type 0 where
  unknown_status invalid_transition : DeployError
  application_required environment_required artifact_required version_required : DeployError
  created_by_required unsupported_strategy unsupported_mode : DeployError

-- The lookup in the table and the loop over the allowed targets.
unfoldable pub validate_transition : DeployStatus → DeployStatus → Option DeployError
unfolding status_beq valid_transitions contains
validate_transition current target = elim (valid_transitions current) [
  | none ↦ some unknown_status
  | some allowed ↦ if contains allowed target then none else some invalid_transition
]

unfoldable pub is_terminal_status : DeployStatus → Bool
is_terminal_status completed = true
is_terminal_status failed = true
is_terminal_status rolled_back = true
is_terminal_status cancelled = true
is_terminal_status _ = false

unfoldable pub is_terminal : Deployment → Bool
unfolding is_terminal_status
is_terminal d = is_terminal_status d.status

-- `if d.StartedAt == nil { d.StartedAt = &now }`
abbrev pub or_now : ℕ → Option ℕ → Option ℕ
or_now now none = some now
or_now now (some t) = some t

-- The `switch target` that stamps the times.
unfoldable pub stamp : ℕ → DeployStatus → Deployment → Deployment
stamp now running d = record d { started_at = or_now now d.started_at }
stamp now completed d = record d { completed_at = some now }
stamp now failed d = record d { completed_at = some now }
stamp now rolled_back d = record d { completed_at = some now }
stamp now cancelled d = record d { completed_at = some now }
stamp now _ d = d

-- `TransitionTo` at the instant `now`.
unfoldable pub transition_to : ℕ → Deployment → DeployStatus → Deployment × Option DeployError
unfolding stamp
transition_to now d target = elim (validate_transition d.status target) [
  | some e ↦ (d, some e)
  | none ↦ (stamp now target (record d { status = target; updated_at = now }), none)
]

unfoldable pub validate_strategy_type : DeployStrategyType → Option DeployError
validate_strategy_type (DeployStrategyType.other s) = some unsupported_strategy
validate_strategy_type _ = none

unfoldable pub validate_mode : DeployMode → DeployStrategyType → Option DeployError
unfolding validate_strategy_type
validate_mode DeployMode.unset s = validate_strategy_type s
validate_mode DeployMode.orchestrate s = validate_strategy_type s
validate_mode DeployMode.record_mode s = none
validate_mode (DeployMode.other m) s = some unsupported_mode

-- `Validate`: the required fields in the order of the source, then the mode.
unfoldable pub validate : Deployment → Option DeployError
unfolding validate_mode
validate d =
    if d.application_id == 0
    then some application_required
    else if d.environment_id == 0
    then some environment_required
    else if d.artifact == ""
    then some artifact_required
    else if d.version == ""
    then some version_required
    else if d.created_by == 0
    then some created_by_required
    else validate_mode d.mode d.strategy
