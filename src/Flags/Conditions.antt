-- ===== src/Flags/Conditions.antt =====
-- internal/flags/targeting.go: the rules, described without their loops.
use deploy_sentry.Base.{
  nat_eq, string_eq, all, any, ◌<◌, String, ◌≡◌, refl, ap, ◌∙◌, ◌≢◌, ◌⊎◌, inl, inr, Bool, true,
  false, none, some, List, [], ◌∷◌, arith, eq_iff,
}
use deploy_sentry.Base.Int.{ℤ, pos, ◌≤ℤ◌, leb_ℤ}
use deploy_sentry.Rollout.Floats.{Floats}
use deploy_sentry.Flags.Targeting.{
  GoText, TargetingRule, EvaluationContext, CombineOperator, all_of, any_of, CompoundCondition,
  evaluate_conditions, evaluate_attribute, evaluate_percentage_rule, hash_percentage,
  compare_attribute, compare_numeric, lookup,
}

module _ (fl : Floats) (go : GoText fl.F) where
  open fl use {F}

  -- All of the conditions, one of them, or nothing for an operator that is neither.
  abbrev pub combined : CombineOperator → (CompoundCondition → Bool) → List CompoundCondition → Bool
  combined all_of holds cs = all holds cs
  combined any_of holds cs = any holds cs
  combined (CombineOperator.other s) holds cs = false

  -- Compound conditions hold under AND if all of them do, no condition included, under OR if one of
  -- them does, and never under any other operator.
  pub evaluate_conditions_lem :
      (cs : List CompoundCondition) (op : CombineOperator) (ctx : EvaluationContext)
      → evaluate_conditions fl go cs op ctx ≡ combined op (λ c. evaluate_attribute fl go c ctx) cs
  unfolding evaluate_conditions
  evaluate_conditions_lem [] all_of ctx = refl
  evaluate_conditions_lem [] any_of ctx = refl
  evaluate_conditions_lem [] (CombineOperator.other s) ctx = refl
  evaluate_conditions_lem (c ∷ cs) all_of ctx =
      ground (arith, evaluate_conditions_lem cs all_of ctx)
  evaluate_conditions_lem (c ∷ cs) any_of ctx =
      ground (arith, evaluate_conditions_lem cs any_of ctx)
  evaluate_conditions_lem (c ∷ cs) (CombineOperator.other s) ctx =
      ground (arith, evaluate_conditions_lem cs (CombineOperator.other s) ctx)

  -- A percentage rule keeps the users it matches when its percentage grows. It matches nobody at 0
  -- or below, and every user with an identifier at 100 or above.
  pub percentage_grows :
      (rule wider : TargetingRule) (ctx : EvaluationContext) (flag_key : String) (p q : ℤ)
      → rule.percentage ≡ some p
      → wider.percentage ≡ some q
      → p ≤ℤ q
      → (evaluate_percentage_rule fl go rule ctx flag_key ≡ true
          → evaluate_percentage_rule fl go wider ctx flag_key ≡ true)
        × (p ≤ℤ pos 0 → evaluate_percentage_rule fl go rule ctx flag_key ≡ false)
        × (pos 100 ≤ℤ q
            → ctx.user_id ≢ ""
            → evaluate_percentage_rule fl go wider ctx flag_key ≡ true)
  unfolding evaluate_percentage_rule hash_percentage
  percentage_grows rule wider ctx flag_key p q e f l = (
    λ h. ground arith,
    λ h. ground arith,
    λ h n.
        let below : hash_percentage fl go flag_key ctx.user_id < 100 = omega arith in
        ground (arith, below, eq_iff ctx.user_id ""),
  )

  compare_unparsed : (a b : String) → go.parse_float a ≡ none → compare_numeric fl go a b ≡ pos 0
  unfolding compare_numeric
  compare_unparsed a b n = ground (arith, n)

  unparsed :
      (operator value rule_value : String)
      → go.parse_float value ≡ none
      → (operator ≡ "gte") ⊎ (operator ≡ "lte")
      → compare_attribute fl go operator value rule_value ≡ true
  unfolding compare_attribute
  unparsed operator value rule_value n (inl o) =
      ap (λ x. compare_attribute fl go x value rule_value) o
      ∙ ap (λ z. leb_ℤ (pos 0) z) (compare_unparsed value rule_value n)
  unparsed operator value rule_value n (inr o) =
      ap (λ x. compare_attribute fl go x value rule_value) o
      ∙ ap (λ z. leb_ℤ z (pos 0)) (compare_unparsed value rule_value n)

  -- `gte` and `lte` hold of an attribute that is there and is no number, whatever the rule asks.
  pub not_a_number_matches :
      (c : CompoundCondition) (ctx : EvaluationContext) (attributes : List (String × String))
      (value : String)
      → ctx.attributes ≡ some attributes
      → lookup attributes c.attribute ≡ some value
      → go.parse_float value ≡ none
      → (c.operator ≡ "gte") ⊎ (c.operator ≡ "lte")
      → evaluate_attribute fl go c ctx ≡ true
  unfolding evaluate_attribute
  not_a_number_matches c ctx attributes value a l n o =
      ground (arith, a, l, unparsed c.operator value c.value n o)
