-- ===== src/Flags/Tests.antt =====
-- internal/flags on concrete rules.
use deploy_sentry.Base.{
  String, ◌⊎◌, if◌then◌else◌, ◌==◌, nat_eq, string_eq, ℕ, ◌≡◌, refl, ◌≢◌, inl, true, false, Option,
  none, some, [], ◌∷◌, arith,
}
use deploy_sentry.Base.Int.{ℤ, pos, ◌≤ℤ◌}
use deploy_sentry.Rollout.Tests.{ints}
use deploy_sentry.Flags.Targeting.{
  GoText, TargetingRule, EvaluationContext, Segment, RuleType, all_of, any_of, CompoundCondition,
  evaluate_conditions, evaluate_attribute, evaluate_percentage_rule, lookup,
}
use deploy_sentry.Flags.Conditions.{
  combined, evaluate_conditions_lem, percentage_grows, not_a_number_matches,
}
use deploy_sentry.Flags.Evaluation.{FeatureFlag, evaluate, disabled}
use deploy_sentry.Flags.Evaluation.{FlagType, FlagCategory}
use deploy_sentry.Flags.Decision.{FirstOf, evaluate_decides, decided, Switch, Fallback, Counts}

-- Only "7" is a number, and the digest of a text is 142.
abbrev go : GoText (Option ℤ)
go = record {
  has_part = λ s t. s == t;
  has_prefix = λ s t. s == t;
  has_suffix = λ s t. s == t;
  split_commas = λ s. s ∷ [];
  trim_space = λ s. s;
  parse_float = λ s. if s == "7" then some (some (pos 7)) else none;
  digest = λ ts. 142;
}

abbrev rollout_rule : TargetingRule
rollout_rule = record {
  id = 4;
  flag_id = 1;
  rule_type = RuleType.percentage;
  priority = pos 1;
  value = "on";
  percentage = some (pos 43);
  attribute = "";
  operator = "";
  target_values = [];
  segment_id = none;
  conditions = [];
  combine_op = all_of;
  start_time = none;
  end_time = none;
  enabled = true;
  created_at = 1;
  updated_at = 1;
}

abbrev ada : EvaluationContext
ada = record {
  user_id = "ada";
  org_id = "";
  attributes = some (("plan", "pro") ∷ ("age", "old") ∷ []);
}

abbrev pro : CompoundCondition
pro = record { attribute = "plan"; operator = "eq"; value = "pro" }

abbrev of_age : CompoundCondition
of_age = record { attribute = "age"; operator = "gte"; value = "7" }

evaluate_conditions_lem_example :
    evaluate_conditions ints go (pro ∷ of_age ∷ []) any_of ada
    ≡ combined ints go any_of (λ c. evaluate_attribute ints go c ada) (pro ∷ of_age ∷ [])
evaluate_conditions_lem_example = evaluate_conditions_lem ints go (pro ∷ of_age ∷ []) any_of ada

percentage_grows_example :
    let wider : TargetingRule = record rollout_rule { percentage = some (pos 100) } in
    (evaluate_percentage_rule ints go rollout_rule ada "dark" ≡ true
      → evaluate_percentage_rule ints go wider ada "dark" ≡ true)
    × (pos 43 ≤ℤ pos 0 → evaluate_percentage_rule ints go rollout_rule ada "dark" ≡ false)
    × (pos 100 ≤ℤ pos 100
        → ada.user_id ≢ ""
        → evaluate_percentage_rule ints go wider ada "dark" ≡ true)
percentage_grows_example =
    percentage_grows ints go rollout_rule (record rollout_rule { percentage = some (pos 100) }) ada
      "dark" (pos 43) (pos 100) refl refl (omega arith)

not_a_number_matches_example : evaluate_attribute ints go of_age ada ≡ true
unfolding lookup
not_a_number_matches_example =
    not_a_number_matches ints go of_age ada (("plan", "pro") ∷ ("age", "old") ∷ []) "old" refl refl
      refl (inl refl)

abbrev dark : FeatureFlag
dark = record {
  id = 1;
  project_id = 2;
  application_id = none;
  environment_id = none;
  key = "dark";
  name = "Dark mode";
  description = "";
  flag_type = FlagType.boolean;
  category = FlagCategory.feature;
  purpose = "";
  owners = [];
  is_permanent = false;
  expires_at = none;
  enabled = true;
  default_value = "off";
  archived = false;
  archived_at = none;
  tags = [];
  created_by = 3;
  created_at = 4;
  updated_at = 4;
  delete_after = none;
  smoke_test_status = none;
  user_test_status = none;
  scheduled_removal_at = none;
  iteration_count = pos 0;
  iteration_exhausted = false;
  last_smoke_test_notes = none;
  last_user_test_notes = none;
}

abbrev no_segments : ℕ → Option Segment
no_segments i = none

evaluate_decides_example :
    (((dark.archived ≡ true) ⊎ Switch dark none false)
      × (evaluate ints go 5 no_segments
            (some dark)
            none
            (some (rollout_rule ∷ []))
            (some ((4, true) ∷ []))
            ada
          ≡ some (disabled dark)))
    ⊎ ((dark.archived ≡ false)
        × Switch dark none true
        × ((o : Option TargetingRule) × (v : String) × FirstOf
              (Counts ints go 5 no_segments ((4, true) ∷ []) ada "dark")
              (rollout_rule ∷ [])
              o
            × Fallback dark none v
            × (evaluate ints go 5 no_segments
                  (some dark)
                  none
                  (some (rollout_rule ∷ []))
                  (some ((4, true) ∷ []))
                  ada
                ≡ some (decided dark v o))))
evaluate_decides_example =
    evaluate_decides ints go 5 no_segments dark none (rollout_rule ∷ []) ((4, true) ∷ []) ada
