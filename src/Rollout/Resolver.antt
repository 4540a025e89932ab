-- ===== src/Rollout/Resolver.antt =====
-- internal/rollout/resolver.go: the default strategy and the policy of a scope. The source has the
-- same loops for both kinds of rows; here they are one search over the columns that it reads.
pub mod Scan
pub mod Nearest
use deploy_sentry.Base.{
  ltb, leb, nat_beq, if◌then◌else◌, ltb→lt, lt→ltb, leb→le, nat_beq_iff, tests, Bool-cases,
  Option-cases, Eq, ◌==◌, nat_eq, string_eq, contains, is_some, length, length-append, drop,
  length-drop, all, any, All, ℕ, zero, suc, ◌+◌, ◌-◌, ◌*◌, ◌/◌, ◌%◌, ◌^◌, ◌≤◌, ◌<◌, String, ◌≡◌,
  refl, sym, ap, subst, ◌∙◌, ◌≢◌, ◌↔◌, ◌⊎◌, inl, inr, Bool, true, false, not, ◌&&◌, ◌||◌, Option,
  none, some, List, [], ◌∷◌, ◌++◌, map, arith, eq_iff,
}
use deploy_sentry.Rollout.Strategy.{ScopeType, org, project, app, scope_eq, TargetType, target_eq}

pub record ScopeRef : Type 0 where
  pub scope_type : ScopeType
  pub scope_id : ℕ

pub data PolicyKind : Type 0 where
  off prompt mandate : PolicyKind
  other : String → PolicyKind

pub record StrategyDefault : Type 0 where
  pub id : ℕ
  pub scope_type : ScopeType
  pub scope_id : ℕ
  pub environment : Option String
  pub target_type : Option TargetType
  pub strategy_id : ℕ
  pub created_by : Option ℕ
  pub updated_by : Option ℕ
  pub created_at : ℕ
  pub updated_at : ℕ

pub record RolloutPolicy : Type 0 where
  pub id : ℕ
  pub scope_type : ScopeType
  pub scope_id : ℕ
  pub environment : Option String
  pub target_type : Option TargetType
  pub enabled : Bool
  pub policy : PolicyKind
  pub created_by : Option ℕ
  pub updated_by : Option ℕ
  pub created_at : ℕ
  pub updated_at : ℕ

-- `if id != nil { out = append(out, ScopeRef{…}) }`
abbrev pub scope_if : ScopeType → Option ℕ → List ScopeRef
scope_if st none = []
scope_if st (some i) = record { scope_type = st; scope_id = i } ∷ []

unfoldable pub ancestor_scopes : ScopeRef → Option ℕ → Option ℕ → List ScopeRef
ancestor_scopes leaf project_id org_id = elim leaf.scope_type [
  | app ↦ leaf ∷ scope_if project project_id ++ scope_if org org_id
  | project ↦ leaf ∷ scope_if org org_id
  | org ↦ leaf ∷ []
  | ScopeType.other s ↦ []
]

abbrev pub same_scope : ScopeRef → ScopeRef → Bool
same_scope a b = (a.scope_type == b.scope_type) && (a.scope_id == b.scope_id)

-- One of the two tests of a pattern: a column that must be equal to what is asked, or be null.
unfoldable pub field_ok : {A : Type 0} ⦃e : Eq A⦄ → Bool → Option A → Option A → Bool
field_ok true none asked = false
field_ok true (some a) none = false
field_ok true (some a) (some b) = a == b
field_ok false none asked = true
field_ok false (some a) asked = false

-- `matchEnv`, `matchTarget`, the most specific first.
abbrev pub patterns : List (Bool × Bool)
patterns = (true, true) ∷ (true, false) ∷ (false, true) ∷ (false, false) ∷ []

module _ {A : Type 0} (scope_of : A → ScopeRef) (env_of : A → Option String)
    (kind_of : A → Option TargetType) (env : Option String) (target : Option TargetType) where
  unfoldable pub matches : Bool × Bool → A → Bool
  unfolding field_ok
  matches (match_env, match_target) row =
      field_ok match_env (env_of row) env && field_ok match_target (kind_of row) target

  -- `bucket[anc]`
  unfoldable pub bucket : List A → ScopeRef → List A
  bucket [] anc = []
  bucket (row ∷ rows) anc =
      let rest = bucket rows anc in if same_scope (scope_of row) anc then row ∷ rest else rest

  unfoldable pub first_row : Bool × Bool → List A → Option A
  unfolding matches
  first_row pat [] = none
  first_row pat (row ∷ rows) = if matches pat row then some row else first_row pat rows

  unfoldable pub scan : List (Bool × Bool) → List A → Option A
  unfolding first_row
  scan [] rows = none
  scan (pat ∷ pats) rows = elim (first_row pat rows) [ none ↦ scan pats rows | some row ↦ some row ]

  unfoldable pub resolve : List A → List ScopeRef → Option A
  unfolding scan bucket
  resolve rows [] = none
  resolve rows (anc ∷ ancs) = elim (scan patterns (bucket rows anc)) [
    | none ↦ resolve rows ancs
    | some row ↦ some row
  ]

unfoldable pub resolve_default :
    List StrategyDefault
    → List ScopeRef
    → Option String
    → Option TargetType
    → Option StrategyDefault
unfolding resolve
resolve_default rows ancestors env target =
    resolve (λ r. record { scope_type = r.scope_type; scope_id = r.scope_id }) (λ r. r.environment)
      (λ r. r.target_type) env target rows ancestors

unfoldable pub resolve_policy :
    List RolloutPolicy → List ScopeRef → Option String → Option TargetType → Option RolloutPolicy
unfolding resolve
resolve_policy rows ancestors env target =
    resolve (λ r. record { scope_type = r.scope_type; scope_id = r.scope_id }) (λ r. r.environment)
      (λ r. r.target_type) env target rows ancestors
