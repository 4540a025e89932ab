-- ===== src/Rollout/Strategy.antt =====
-- internal/models/strategy.go: a rollout strategy and its steps. A duration is a signed integer, as
-- in Go; `F` is the type of `float64`.
use deploy_sentry.Base.{
  Eq, ◌==◌, nat_eq, string_eq, ℕ, String, ◌≡◌, ◌↔◌, Bool, true, false, Option, List, arith, eq_iff,
}
use deploy_sentry.Base.Int.{ℤ}

pub data TargetType : Type 0 where
  deploy config any_target : TargetType
  other : String → TargetType

pub data ScopeType : Type 0 where
  org project app : ScopeType
  other : String → ScopeType

pub record SignalSource : Type 0 where
  pub kind : String

pub record StepApproval : Type 0 where
  pub required_role : String
  pub timeout : ℤ

pub record StepNotify : Type 0 where
  pub on_entry : List String
  pub on_exit : List String

pub record StepAbortCondition (F : Type 0) : Type 0 where
  pub metric : String
  pub operator : String
  pub threshold : F
  pub window : ℤ

pub record Step (F : Type 0) : Type 0 where
  pub percent : F
  pub min_duration : ℤ
  pub max_duration : ℤ
  pub bake_time_healthy : ℤ
  pub health_threshold : Option F
  pub approval : Option StepApproval
  pub notify : Option StepNotify
  pub abort_conditions : List (StepAbortCondition F)
  pub signal_override : Option SignalSource

pub record Strategy (F : Type 0) : Type 0 where
  pub id : ℕ
  pub scope_type : ScopeType
  pub scope_id : ℕ
  pub name : String
  pub description : String
  pub target_type : TargetType
  pub steps : List (Step F)
  pub default_health_threshold : F
  pub default_rollback_on_failure : Bool
  pub version : ℤ
  pub is_system : Bool
  pub created_by : Option ℕ
  pub updated_by : Option ℕ
  pub created_at : ℕ
  pub updated_at : ℕ

unfoldable pub scope_beq : ScopeType → ScopeType → Bool
scope_beq org org = true
scope_beq project project = true
scope_beq app app = true
scope_beq (ScopeType.other s) (ScopeType.other t) = s == t
scope_beq _ _ = false

pub scope_beq_iff : (a b : ScopeType) → (scope_beq a b ≡ true) ↔ (a ≡ b)
unfolding scope_beq
scope_beq_iff (ScopeType.other s) (ScopeType.other t) = ground (arith, eq_iff s t)
scope_beq_iff _ _ = ground arith

instance abbrev pub scope_eq : Eq ScopeType
scope_eq = record { equal = scope_beq; equal_iff = scope_beq_iff }

unfoldable pub target_beq : TargetType → TargetType → Bool
target_beq deploy deploy = true
target_beq config config = true
target_beq any_target any_target = true
target_beq (TargetType.other s) (TargetType.other t) = s == t
target_beq _ _ = false

pub target_beq_iff : (a b : TargetType) → (target_beq a b ≡ true) ↔ (a ≡ b)
unfolding target_beq
target_beq_iff (TargetType.other s) (TargetType.other t) = ground (arith, eq_iff s t)
target_beq_iff _ _ = ground arith

instance abbrev pub target_eq : Eq TargetType
target_eq = record { equal = target_beq; equal_iff = target_beq_iff }
