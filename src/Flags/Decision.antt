-- ===== src/Flags/Decision.antt =====
-- internal/flags/evaluator.go: what an evaluation decides.
use deploy_sentry.Base.{
  sym, subst, ◌==◌, inr, ◌∙◌, inl, Bool-cases, ◌≢◌, ◌⊎◌, arith, if◌then◌else◌, nat_eq, string_eq,
  All, ℕ, String, ◌≡◌, refl, ap, Bool, true, false, Option, none, some, List, [], ◌∷◌, ◌++◌,
}
use deploy_sentry.Rollout.Floats.{Floats}
use deploy_sentry.Flags.Targeting.{evaluate_rule, GoText, TargetingRule, EvaluationContext, Segment}
use deploy_sentry.Flags.Quotes.{Unquoted, strip_quotes-Unquoted}
use deploy_sentry.Flags.Evaluation.{
  strip_quotes, is_activated, FeatureFlag, FlagEnvironmentState, EvaluationResult, is_enabled,
  fallback_value, disabled, rule_matches, first_match, evaluate,
}

-- Whether the flag is on: the environment's state says so when there is one, else the flag.
abbrev pub Switch : FeatureFlag → Option FlagEnvironmentState → Bool → Type 0
Switch flag none b = flag.enabled ≡ b
Switch flag (some state) b = state.enabled ≡ b

-- The value without a rule: the environment's when it has one, without the quotes around it, else the
-- flag's default.
abbrev pub Fallback : FeatureFlag → Option FlagEnvironmentState → String → Type 0
Fallback flag none v = v ≡ flag.default_value
Fallback flag (some state) v =
    ((state.value ≡ none) × (v ≡ flag.default_value))
    ⊎ ((raw : String) × (state.value ≡ some raw) × Unquoted raw v)

-- The first entry of this identifier activates it.
abbrev pub Activated : List (ℕ × Bool) → ℕ → Type 0
Activated states id =
    (before after : List (ℕ × Bool)) × (states ≡ before ++ (id, true) ∷ after)
    × All (λ p. p.0 ≢ id) before

-- The result of a rule, or without one.
abbrev pub decided : FeatureFlag → String → Option TargetingRule → EvaluationResult
decided flag v (some rule) = record {
  flag_key = flag.key;
  enabled = true;
  value = rule.value;
  reason = "rule_match";
  rule_id = some rule.id;
}
decided flag v none = record {
  flag_key = flag.key;
  enabled = true;
  value = v;
  reason = "default";
  rule_id = none;
}

-- The rule is of the list, and the condition holds of it and of none before it; or of none at all.
abbrev pub FirstOf : (TargetingRule → Type 0) → List TargetingRule → Option TargetingRule → Type 0
FirstOf Holds rules none = All (λ r. ¬ Holds r) rules
FirstOf Holds rules (some rule) =
    (before after : List TargetingRule) × (rules ≡ before ++ rule ∷ after)
    × All (λ r. ¬ Holds r) before
    × Holds rule

is_enabled-Switch :
    (flag : FeatureFlag) (state : Option FlagEnvironmentState)
    → Switch flag state (is_enabled flag state)
unfolding is_enabled
is_enabled-Switch flag none = refl
is_enabled-Switch flag (some state) = refl

fallback_value-Fallback :
    (flag : FeatureFlag) (state : Option FlagEnvironmentState)
    → Fallback flag state (fallback_value flag state)
unfolding fallback_value
fallback_value-Fallback flag none = refl
fallback_value-Fallback flag (some state) = by_value state.value refl
  where
    by_value :
        (value : Option String)
        → state.value ≡ value
        → Fallback flag (some state) (fallback_value flag (some state))
    by_value none e = inl (e, ground arith)
    by_value (some raw) e =
        let same : fallback_value flag (some state) ≡ strip_quotes raw = ground arith in
        inr (raw, e, subst (Unquoted raw) (sym same) (strip_quotes-Unquoted raw))

is_activated-Activated :
    (states : List (ℕ × Bool)) (id : ℕ) → is_activated states id ≡ true → Activated states id
unfolding is_activated
is_activated-Activated [] id h = ground arith
is_activated-Activated ((i, b) ∷ rest) id h = elim (Bool-cases (i == id)) [
  | inl t ↦
      let same : i ≡ id = (nat_eq.equal_iff i id).0 t in
      let on : b ≡ true = ground arith in
      ([], rest, ap (λ p. p ∷ rest) (ap (λ k. (k, b)) same ∙ ap (λ c. (id, c)) on), tt)
  | inr f ↦
      let (before, after, split, other) = is_activated-Activated rest id (ground arith) in
      (
        (i, b) ∷ before,
        after,
        ap (λ l. (i, b) ∷ l) split,
        (λ e. ground (arith, (nat_eq.equal_iff i id).1 e), other),
      )
]

skips :
    (before rest : List (ℕ × Bool)) (id : ℕ)
    → All (λ p. p.0 ≢ id) before
    → is_activated (before ++ rest) id ≡ is_activated rest id
unfolding is_activated
skips [] rest id h = refl
skips ((i, b) ∷ before) rest id (other, h) =
    ground (arith, skips before rest id h, nat_eq.equal_iff i id)

Activated-is_activated :
    (states : List (ℕ × Bool)) (id : ℕ) → Activated states id → is_activated states id ≡ true
unfolding is_activated
Activated-is_activated states id (before, after, split, other) =
    ap (λ l. is_activated l id) split
    ∙ skips before ((id, true) ∷ after) id other
    ∙ ground (arith, nat_eq.equal_iff id id)

module _ (fl : Floats) (go : GoText fl.F) (now : ℕ) (segments : ℕ → Option Segment) where
  -- The rule is activated in the environment, and its evaluation is a match and no error.
  abbrev pub Counts : List (ℕ × Bool) → EvaluationContext → String → TargetingRule → Type 0
  Counts states ctx key rule =
      Activated states rule.id × (evaluate_rule fl go now segments rule ctx key ≡ some true)

  rule_matches-Counts :
      (states : List (ℕ × Bool)) (ctx : EvaluationContext) (key : String) (rule : TargetingRule)
      → rule_matches fl go now segments states ctx key rule ≡ true
      → Counts states ctx key rule
  unfolding rule_matches
  rule_matches-Counts states ctx key rule h =
      (is_activated-Activated states rule.id (ground arith), ground arith)

  not-Counts :
      (states : List (ℕ × Bool)) (ctx : EvaluationContext) (key : String) (rule : TargetingRule)
      → rule_matches fl go now segments states ctx key rule ≡ false
      → ¬ Counts states ctx key rule
  unfolding rule_matches
  not-Counts states ctx key rule h (on, match) =
      ground (arith, Activated-is_activated states rule.id on)

  first_match-FirstOf :
      (states : List (ℕ × Bool)) (ctx : EvaluationContext) (key : String)
      (rules : List TargetingRule)
      → FirstOf (Counts states ctx key) rules (first_match fl go now segments states ctx key rules)
  unfolding first_match
  first_match-FirstOf states ctx key [] = tt
  first_match-FirstOf states ctx key (rule ∷ rules) =
      by_test (rule_matches fl go now segments states ctx key rule) refl
        (first_match fl go now segments states ctx key rules)
        (first_match-FirstOf states ctx key rules)
    where
      by_test :
          (b : Bool)
          → rule_matches fl go now segments states ctx key rule ≡ b
          → (o : Option TargetingRule) → FirstOf (Counts states ctx key) rules o
          → FirstOf (Counts states ctx key) (rule ∷ rules) (if b then some rule else o)
      by_test true e o h = ([], rules, refl, tt, rule_matches-Counts states ctx key rule e)
      by_test false e none h = (not-Counts states ctx key rule e, h)
      by_test false e (some r) (before, after, split, none_before, holds) = (
        rule ∷ before,
        after,
        ap (λ l. rule ∷ l) split,
        (not-Counts states ctx key rule e, none_before),
        holds,
      )

  -- An evaluation whose flag, rules and their states load. A flag that is archived, or that is off, in the state of
  -- the environment or, when the environment has none, of itself, is disabled with its default value.
  -- Otherwise the first rule in order that the environment activates and whose evaluation is a match
  -- gives the value, and if there is none the environment's value, without the quotes around it, or,
  -- when it has none, the default does.
  pub evaluate_decides :
      (flag : FeatureFlag) (state : Option FlagEnvironmentState) (rules : List TargetingRule)
      (states : List (ℕ × Bool)) (ctx : EvaluationContext)
      → (((flag.archived ≡ true) ⊎ Switch flag state false)
          × (evaluate fl go now segments (some flag) state (some rules) (some states) ctx
              ≡ some (disabled flag)))
        ⊎ ((flag.archived ≡ false)
            × Switch flag state true
            × ((o : Option TargetingRule) × (v : String) × FirstOf
                  (Counts states ctx flag.key)
                  rules
                  o
                × Fallback flag state v
                × (evaluate fl go now segments (some flag) state (some rules) (some states) ctx
                    ≡ some (decided flag v o))))
  unfolding evaluate
  evaluate_decides flag state rules states ctx =
      by_test flag.archived (is_enabled flag state) refl refl (is_enabled-Switch flag state)
    where
      by_match :
          flag.archived ≡ false
          → is_enabled flag state ≡ true
          → (o : Option TargetingRule)
          → first_match fl go now segments states ctx flag.key rules ≡ o
          → evaluate fl go now segments (some flag) state (some rules) (some states) ctx
            ≡ some (decided flag (fallback_value flag state) o)
      by_match kept on none e = ground arith
      by_match kept on (some rule) e = ground arith

      by_test :
          (archived on : Bool)
          → flag.archived ≡ archived
          → is_enabled flag state ≡ on
          → Switch flag state on
          → (((flag.archived ≡ true) ⊎ Switch flag state false)
              × (evaluate fl go now segments (some flag) state (some rules) (some states) ctx
                  ≡ some (disabled flag)))
            ⊎ ((flag.archived ≡ false)
                × Switch flag state true
                × ((o : Option TargetingRule) × (v : String) × FirstOf
                      (Counts states ctx flag.key)
                      rules
                      o
                    × Fallback flag state v
                    × (evaluate fl go now segments (some flag) state (some rules) (some states) ctx
                        ≡ some (decided flag v o))))
      by_test true on e q s = inl (inl e, ground arith)
      by_test false false e q s = inl (inr s, ground arith)
      by_test false true e q s = inr (
        e,
        s,
        (
          first_match fl go now segments states ctx flag.key rules,
          fallback_value flag state,
          first_match-FirstOf states ctx flag.key rules,
          fallback_value-Fallback flag state,
          by_match e q (first_match fl go now segments states ctx flag.key rules) refl,
        ),
      )
