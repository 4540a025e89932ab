-- ===== src/Flags/Targeting.antt =====
-- internal/flags/targeting.go, the rules of internal/flags/evaluator.go, and the records of
-- internal/models/flag.go and segment.go that they read. The functions of Go's libraries are a
-- parameter, and so is the clock.
use deploy_sentry.Base.{
  map, ltb, if◌then◌else◌, ◌==◌, nat_eq, string_eq, contains, ℕ, ◌%◌, String, Bool, true, false,
  not, ◌&&◌, Option, none, some, List, [], ◌∷◌,
}
use deploy_sentry.Base.Int.{ℤ, pos, negsuc, ltb_ℤ, leb_ℤ}
use deploy_sentry.Rollout.Floats.{Floats}

-- strings.Contains, HasPrefix, HasSuffix, Split at commas and TrimSpace; strconv.ParseFloat; the
-- first four bytes of the SHA-256 of what is written, as a number.
pub record GoText (F : Type 0) : Type 0 where
  pub has_part : String → String → Bool
  pub has_prefix : String → String → Bool
  pub has_suffix : String → String → Bool
  pub split_commas : String → List String
  pub trim_space : String → String
  pub parse_float : String → Option F
  pub digest : List String → ℕ

pub data RuleType : Type 0 where
  percentage user_target attribute segment schedule compound : RuleType
  other : String → RuleType

pub data CombineOperator : Type 0 where
  all_of any_of : CombineOperator
  other : String → CombineOperator

pub record CompoundCondition : Type 0 where
  pub attribute : String
  pub operator : String
  pub value : String

pub record SegmentCondition : Type 0 where
  pub id : ℕ
  pub segment_id : ℕ
  pub attribute : String
  pub operator : String
  pub value : String
  pub priority : ℤ
  pub created_at : ℕ

-- The operator is the text of `CombineOp`, read as a `CombineOperator`.
pub record Segment : Type 0 where
  pub id : ℕ
  pub project_id : ℕ
  pub key : String
  pub name : String
  pub description : String
  pub combine_op : CombineOperator
  pub conditions : List SegmentCondition
  pub created_at : ℕ
  pub updated_at : ℕ

pub record TargetingRule : Type 0 where
  pub id : ℕ
  pub flag_id : ℕ
  pub rule_type : RuleType
  pub priority : ℤ
  pub value : String
  pub percentage : Option ℤ
  pub attribute : String
  pub operator : String
  pub target_values : List String
  pub segment_id : Option ℕ
  pub conditions : List CompoundCondition
  pub combine_op : CombineOperator
  pub start_time : Option ℕ
  pub end_time : Option ℕ
  pub enabled : Bool
  pub created_at : ℕ
  pub updated_at : ℕ

-- A nil map of attributes is `none`.
pub record EvaluationContext : Type 0 where
  pub user_id : String
  pub org_id : String
  pub attributes : Option (List (String × String))

unfoldable pub lookup : {A : Type 0} → List (String × A) → String → Option A
lookup [] key = none
lookup ((k, v) ∷ rest) key = if k == key then some v else lookup rest key

unfoldable pub evaluate_user_target_rule : TargetingRule → EvaluationContext → Bool
unfolding contains
evaluate_user_target_rule rule ctx =
    if ctx.user_id == "" then false else contains rule.target_values ctx.user_id

-- `now.Before(*rule.StartTime)` and `now.After(*rule.EndTime)`.
unfoldable pub evaluate_schedule_rule : ℕ → TargetingRule → Bool
evaluate_schedule_rule now rule =
    let early : Bool = elim rule.start_time [ none ↦ false | some t ↦ ltb now t ] in
    let late : Bool = elim rule.end_time [ none ↦ false | some t ↦ ltb t now ] in
    if early then false else if late then false else true

module _ (fl : Floats) (go : GoText fl.F) where
  open fl use {F, lt}

  unfoldable pub hash_percentage : String → String → ℕ
  hash_percentage flag_key user_id = go.digest (flag_key ∷ ":" ∷ user_id ∷ []) % 100

  unfoldable pub evaluate_percentage_rule : TargetingRule → EvaluationContext → String → Bool
  unfolding hash_percentage
  evaluate_percentage_rule rule ctx flag_key = elim rule.percentage [
    | none ↦ false
    | some p ↦
        if ctx.user_id == "" then false else ltb_ℤ (pos (hash_percentage flag_key ctx.user_id)) p
  ]

  -- -1, 0 or 1; 0 if a text is no number.
  unfoldable pub compare_numeric : String → String → ℤ
  compare_numeric a b = elim (go.parse_float a) [
    | none ↦ pos 0
    | some av ↦ elim (go.parse_float b) [
      | none ↦ pos 0
      | some bv ↦ if lt av bv then negsuc 0 else if lt bv av then pos 1 else pos 0
    ]
  ]

  -- `strings.TrimSpace(v) == attrValue` for one of the values.
  unfoldable pub listed : List String → String → Bool
  listed [] value = false
  listed (v ∷ vs) value = if go.trim_space v == value then true else listed vs value

  unfoldable pub compare_attribute : String → String → String → Bool
  unfolding compare_numeric listed
  compare_attribute operator value rule_value =
      if operator == "eq"
      then value == rule_value
      else if operator == "neq"
      then not (value == rule_value)
      else if operator == "contains"
      then go.has_part value rule_value
      else if operator == "starts_with"
      then go.has_prefix value rule_value
      else if operator == "ends_with"
      then go.has_suffix value rule_value
      else if operator == "in"
      then listed (go.split_commas rule_value) value
      else if operator == "not_in"
      then not (listed (go.split_commas rule_value) value)
      else if operator == "gt"
      then ltb_ℤ (pos 0) (compare_numeric value rule_value)
      else if operator == "gte"
      then leb_ℤ (pos 0) (compare_numeric value rule_value)
      else if operator == "lt"
      then ltb_ℤ (compare_numeric value rule_value) (pos 0)
      else if operator == "lte"
      then leb_ℤ (compare_numeric value rule_value) (pos 0)
      else false

  -- `evaluateAttributeRule` on the attribute, operator and value of a rule or of a condition.
  unfoldable pub evaluate_attribute : CompoundCondition → EvaluationContext → Bool
  unfolding lookup compare_attribute
  evaluate_attribute c ctx = elim ctx.attributes [
    | none ↦ false
    | some attributes ↦ elim (lookup attributes c.attribute) [
      | none ↦ false
      | some value ↦ compare_attribute c.operator value c.value
    ]
  ]

  abbrev pub is_all_of : CombineOperator → Bool
  is_all_of all_of = true
  is_all_of _ = false

  abbrev pub is_any_of : CombineOperator → Bool
  is_any_of any_of = true
  is_any_of _ = false

  -- The loop over the conditions, and what is returned behind it.
  unfoldable pub evaluate_conditions :
      List CompoundCondition → CombineOperator → EvaluationContext → Bool
  unfolding evaluate_attribute
  evaluate_conditions [] op ctx = is_all_of op
  evaluate_conditions (c ∷ cs) op ctx =
      let rest = evaluate_conditions cs op ctx in
      if is_all_of op && not (evaluate_attribute c ctx)
      then false
      else if is_any_of op && evaluate_attribute c ctx
      then true
      else rest

  abbrev pub compound_of : SegmentCondition → CompoundCondition
  compound_of c = record { attribute = c.attribute; operator = c.operator; value = c.value }

  -- `evaluateRule`, with the clock and the segments as they load; `none` is an error.
  unfoldable pub evaluate_rule :
      ℕ → (ℕ → Option Segment) → TargetingRule → EvaluationContext → String → Option Bool
  unfolding evaluate_percentage_rule evaluate_conditions
  evaluate_rule now segments rule ctx flag_key = elim rule.rule_type [
    | percentage ↦ some (evaluate_percentage_rule rule ctx flag_key)
    | user_target ↦ some (evaluate_user_target_rule rule ctx)
    | attribute ↦ some (
        evaluate_attribute
          (record { attribute = rule.attribute; operator = rule.operator; value = rule.value }) ctx)
    | schedule ↦ some (evaluate_schedule_rule now rule)
    | segment ↦ elim rule.segment_id [
      | none ↦ none
      | some id ↦ elim (segments id) [
        | none ↦ none
        | some s ↦ some (evaluate_conditions (map compound_of s.conditions) s.combine_op ctx)
      ]
    ]
    | compound ↦ some (evaluate_conditions rule.conditions rule.combine_op ctx)
    | RuleType.other s ↦ none
  ]
