-- ===== src/Flags/Evaluation.antt =====
-- internal/flags/evaluator.go, `Evaluate`: what the cache or the repository answers is an argument,
-- `none` for an error; telemetry and the counters of the cache are left out.
use deploy_sentry.Base.{
  leb, if◌then◌else◌, ◌==◌, nat_eq, string_eq, ℕ, ◌-◌, String, Bool, true, false, not, ◌&&◌, Option,
  none, some, List, [], ◌∷◌,
}
use Prim.Native.String.{len, slice}
use deploy_sentry.Rollout.Floats.{Floats}
use deploy_sentry.Flags.Targeting.{GoText, TargetingRule, EvaluationContext, Segment, evaluate_rule}
use deploy_sentry.Base.Int.{ℤ}

pub data FlagType : Type 0 where
  boolean string integer json : FlagType
  other : String → FlagType

pub data FlagCategory : Type 0 where
  release feature experiment ops permission : FlagCategory
  other : String → FlagCategory

pub data LifecycleTestStatus : Type 0 where
  pending pass fail : LifecycleTestStatus
  other : String → LifecycleTestStatus

pub record FeatureFlag : Type 0 where
  pub id : ℕ
  pub project_id : ℕ
  pub application_id : Option ℕ
  pub environment_id : Option ℕ
  pub key : String
  pub name : String
  pub description : String
  pub flag_type : FlagType
  pub category : FlagCategory
  pub purpose : String
  pub owners : List String
  pub is_permanent : Bool
  pub expires_at : Option ℕ
  pub enabled : Bool
  pub default_value : String
  pub archived : Bool
  pub archived_at : Option ℕ
  pub tags : List String
  pub created_by : ℕ
  pub created_at : ℕ
  pub updated_at : ℕ
  pub delete_after : Option ℕ
  pub smoke_test_status : Option LifecycleTestStatus
  pub user_test_status : Option LifecycleTestStatus
  pub scheduled_removal_at : Option ℕ
  pub iteration_count : ℤ
  pub iteration_exhausted : Bool
  pub last_smoke_test_notes : Option String
  pub last_user_test_notes : Option String

pub record FlagEnvironmentState : Type 0 where
  pub id : ℕ
  pub flag_id : ℕ
  pub environment_id : ℕ
  pub enabled : Bool
  pub value : Option String
  pub updated_by : Option ℕ
  pub updated_at : ℕ

-- The fields that `Evaluate` sets; the others are left empty. The identifier of a rule is not
-- printed.
pub record EvaluationResult : Type 0 where
  pub flag_key : String
  pub enabled : Bool
  pub value : String
  pub reason : String
  pub rule_id : Option ℕ

-- `raw[1 : len(raw)-1]` of a text in quotes.
unfoldable pub strip_quotes : String → String
strip_quotes raw =
    if leb 2 (len raw) && slice raw 0 1 == "\"" && slice raw (len raw - 1) (len raw) == "\""
    then slice raw 1 (len raw - 1)
    else raw

-- `enabledRules[rule.ID]`
unfoldable pub is_activated : List (ℕ × Bool) → ℕ → Bool
is_activated [] id = false
is_activated ((i, b) ∷ rest) id = if i == id then b else is_activated rest id

unfoldable pub is_enabled : FeatureFlag → Option FlagEnvironmentState → Bool
is_enabled flag none = flag.enabled
is_enabled flag (some state) = state.enabled

unfoldable pub fallback_value : FeatureFlag → Option FlagEnvironmentState → String
unfolding strip_quotes
fallback_value flag none = flag.default_value
fallback_value flag (some state) = elim state.value [
  | none ↦ flag.default_value
  | some raw ↦ strip_quotes raw
]

abbrev pub disabled : FeatureFlag → EvaluationResult
disabled flag = record {
  flag_key = flag.key;
  enabled = false;
  value = flag.default_value;
  reason = "flag_disabled";
  rule_id = none;
}

module _ (fl : Floats) (go : GoText fl.F) (now : ℕ) (segments : ℕ → Option Segment) where
  -- An error of a rule counts as no match.
  unfoldable pub rule_matches : List (ℕ × Bool) → EvaluationContext → String → TargetingRule → Bool
  unfolding is_activated evaluate_rule
  rule_matches states ctx flag_key rule =
      if not (is_activated states rule.id)
      then false
      else elim (evaluate_rule fl go now segments rule ctx flag_key) [
        | none ↦ false
        | some match ↦ match
      ]

  -- The loop over the rules in order.
  unfoldable pub first_match :
      List (ℕ × Bool) → EvaluationContext → String → List TargetingRule → Option TargetingRule
  unfolding rule_matches
  first_match states ctx flag_key [] = none
  first_match states ctx flag_key (rule ∷ rules) =
      if rule_matches states ctx flag_key rule
      then some rule
      else first_match states ctx flag_key rules

  unfoldable pub evaluate :
      Option FeatureFlag
      → Option FlagEnvironmentState
      → Option (List TargetingRule)
      → Option (List (ℕ × Bool))
      → EvaluationContext
      → Option EvaluationResult
  unfolding first_match is_enabled fallback_value
  evaluate none state rules states ctx = none
  evaluate (some flag) state rules states ctx =
      if flag.archived
      then some (disabled flag)
      else if not (is_enabled flag state)
      then some (disabled flag)
      else elim rules [
        | none ↦ none
        | some rules ↦
            let activated : List (ℕ × Bool) = elim states [ none ↦ [] | some s ↦ s ] in
            elim (first_match activated ctx flag.key rules) [
              | some rule ↦ some (record {
                flag_key = flag.key;
                enabled = true;
                value = rule.value;
                reason = "rule_match";
                rule_id = some rule.id;
              })
              | none ↦ some (record {
                flag_key = flag.key;
                enabled = true;
                value = fallback_value flag state;
                reason = "default";
                rule_id = none;
              })
            ]
      ]
