-- ===== src/Rollout/ResolverTests.antt =====
-- internal/rollout/resolver.go on concrete rows.
use deploy_sentry.Base.{nat_eq, string_eq, ◌≡◌, refl, true, none, some, List, [], ◌∷◌}
use deploy_sentry.Rollout.Strategy.{scope_beq, ScopeType, TargetType}
use deploy_sentry.Rollout.Resolver.{
  ScopeRef, StrategyDefault, resolve_default, RolloutPolicy, PolicyKind, ancestor_scopes,
}
use deploy_sentry.Rollout.Resolver.Nearest.{Nearest, resolve_default-Nearest}

abbrev for_org : StrategyDefault
for_org = record {
  id = 1;
  scope_type = ScopeType.org;
  scope_id = 30;
  environment = some "prod";
  target_type = none;
  strategy_id = 100;
  created_by = none;
  updated_by = none;
  created_at = 1;
  updated_at = 1;
}

abbrev for_project : StrategyDefault
for_project = record for_org {
  id = 2;
  scope_type = ScopeType.project;
  scope_id = 20;
  environment = none;
}

abbrev named : StrategyDefault
named = record for_project { id = 3; environment = some "prod" }

abbrev scopes : List ScopeRef
scopes = ancestor_scopes (record { scope_type = ScopeType.app; scope_id = 10 }) (some 20) (some 30)

-- The project is nearer than the organization, and its row for the environment comes first.
named_resolved :
    resolve_default
      (for_org ∷ for_project ∷ named ∷ [])
      scopes
      (some "prod")
      (some TargetType.deploy)
    ≡ some named
unfolding resolve_default ancestor_scopes scope_beq
named_resolved = refl

resolve_default-Nearest_example :
    Nearest
      (λ r. record { scope_type = r.scope_type; scope_id = r.scope_id })
      (λ r. r.environment)
      (λ r. r.target_type)
      (some "prod")
      (some TargetType.deploy)
      (for_org ∷ for_project ∷ named ∷ [])
      scopes
      (resolve_default
        (for_org ∷ for_project ∷ named ∷ [])
        scopes
        (some "prod")
        (some TargetType.deploy))
resolve_default-Nearest_example =
    resolve_default-Nearest (for_org ∷ for_project ∷ named ∷ []) scopes (some "prod")
      (some TargetType.deploy)

abbrev mandated : RolloutPolicy
mandated = record {
  id = 4;
  scope_type = ScopeType.org;
  scope_id = 30;
  environment = none;
  target_type = none;
  enabled = true;
  policy = PolicyKind.mandate;
  created_by = none;
  updated_by = none;
  created_at = 1;
  updated_at = 1;
}
