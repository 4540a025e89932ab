-- ===== src/Access/Grants.antt =====
-- internal/auth/rbac.go against internal/models/api_key.go: the two readings of a key's scopes.
use deploy_sentry.Base.{nat_eq, string_eq, contains, any, ◌≡◌, refl, ◌||◌, List, [], ◌∷◌, arith}
use deploy_sentry.Access.Keys.{ApiKey, has_scope, ApiKeyScope, scopes_grant}
use deploy_sentry.Access.Scopes.{wanted_scopes, scope_satisfies}
use deploy_sentry.Access.Roles.{Permission}

-- A key grants a scope that it has, and all scopes with "admin".
pub scopes_grant_lem :
    (ss : List ApiKeyScope) (w : ApiKeyScope)
    → scopes_grant ss w ≡ (contains ss "admin" || contains ss w)
unfolding scopes_grant contains
scopes_grant_lem [] w = refl
scopes_grant_lem (s ∷ ss) w = ground (arith, scopes_grant_lem ss w)

any_grant :
    (ss wanted : List ApiKeyScope)
    → (contains ss "admin" || any (contains ss) wanted)
      ≡ (contains ss "admin" || any (scopes_grant ss) wanted)
any_grant ss [] = refl
any_grant ss (w ∷ wanted) = ground (arith, any_grant ss wanted, scopes_grant_lem ss w)

-- The middleware's check of a permission agrees with the model's `HasScope`: a key satisfies a
-- permission exactly when it has the admin scope or one of the permission's scopes.
pub scope_satisfies-has_scope :
    (k : ApiKey) (perm : Permission)
    → scope_satisfies k.scopes perm
      ≡ (has_scope k "admin" || any (has_scope k) (wanted_scopes perm))
unfolding scope_satisfies has_scope
scope_satisfies-has_scope k perm =
    ground (arith, scopes_grant_lem k.scopes "admin", any_grant k.scopes (wanted_scopes perm))
