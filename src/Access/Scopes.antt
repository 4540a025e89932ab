-- ===== src/Access/Scopes.antt =====
-- internal/auth/rbac.go: the permissions that the scopes of a key imply.
use deploy_sentry.Base.{
  if◌then◌else◌, ◌==◌, nat_eq, string_eq, contains, length, any, Bool, true, false, ◌||◌, none,
  some, List, [], ◌∷◌, ◌++◌,
}
use deploy_sentry.Access.Roles.{
  perm_settings_write, perm_settings_read, perm_api_key_manage, perm_status_write,
  perm_release_promote, perm_release_read, perm_release_create, perm_flag_archive, perm_flag_toggle,
  perm_flag_update, perm_flag_read, perm_flag_create, perm_deploy_manage, role_owner,
  perm_deploy_rollback, role_viewer, perm_deploy_promote, role_developer, perm_deploy_read, Role,
  perm_deploy_create, Permission, row,
}
use deploy_sentry.Access.Keys.{ApiKeyScope}

-- `permissionSatisfyingScopes`; a permission without a row has no scope.
abbrev pub permission_satisfying_scopes : List (Permission × List ApiKeyScope)
permission_satisfying_scopes =
    (perm_deploy_create, "deploys:write" ∷ [])
    ∷ (perm_deploy_read, "deploys:read" ∷ "deploys:write" ∷ [])
    ∷ (perm_deploy_promote, "deploys:write" ∷ [])
    ∷ (perm_deploy_rollback, "deploys:write" ∷ [])
    ∷ (perm_deploy_manage, "deploys:write" ∷ [])
    ∷ (perm_flag_create, "flags:write" ∷ [])
    ∷ (perm_flag_read, "flags:read" ∷ "flags:write" ∷ [])
    ∷ (perm_flag_update, "flags:write" ∷ [])
    ∷ (perm_flag_toggle, "flags:write" ∷ [])
    ∷ (perm_flag_archive, "flags:write" ∷ [])
    ∷ (perm_release_create, "releases:write" ∷ [])
    ∷ (perm_release_read, "releases:read" ∷ "releases:write" ∷ [])
    ∷ (perm_release_promote, "releases:write" ∷ [])
    ∷ (perm_status_write, "status:write" ∷ [])
    ∷ (perm_api_key_manage, "apikey:manage" ∷ [])
    ∷ (perm_settings_read, "deploys:read" ∷ "flags:read" ∷ [])
    ∷ (perm_settings_write, "deploys:write" ∷ "flags:write" ∷ [])
    ∷ []

-- The scopes of a permission; an unknown one has `nil`.
unfoldable pub wanted_scopes : Permission → List ApiKeyScope
unfolding row
wanted_scopes perm = elim (row permission_satisfying_scopes perm) [ none ↦ [] | some ss ↦ ss ]

unfoldable pub scope_satisfies : List ApiKeyScope → Permission → Bool
scope_satisfies scopes perm =
    if contains scopes "admin"
    then true
    else any (λ want. contains scopes want) (wanted_scopes perm)

unfoldable pub scope_hints : Permission → List ApiKeyScope
scope_hints perm =
    let scopes : List ApiKeyScope = wanted_scopes perm in
    if length scopes == 0
    then "admin (this permission has no non-admin scope mapping yet)" ∷ []
    else scopes ++ ("admin" ∷ [])

-- What the loop of `apiKeyScopesToRole` has seen.
pub record Seen : Type 0 where
  pub write : Bool
  pub read : Bool

unfoldable pub is_write_scope : ApiKeyScope → Bool
is_write_scope s =
    s == "flag:toggle"
    || s == "flags:toggle"
    || s == "flag:create"
    || s == "flags:create"
    || s == "flag:update"
    || s == "flags:update"
    || s == "flag:write"
    || s == "flags:write"

unfoldable pub is_read_scope : ApiKeyScope → Bool
is_read_scope s = s == "flag:read" || s == "flags:read"

unfoldable pub scan_scopes : List ApiKeyScope → Seen → Role
unfolding is_write_scope is_read_scope
scan_scopes [] seen = if seen.write then role_developer else if seen.read then role_viewer else ""
scan_scopes (s ∷ scopes) seen =
    if s == "admin"
    then role_owner
    else if is_write_scope s
    then scan_scopes scopes (record seen { write = true })
    else if is_read_scope s
    then scan_scopes scopes (record seen { read = true })
    else scan_scopes scopes seen

unfoldable pub api_key_scopes_to_role : List ApiKeyScope → Role
unfolding scan_scopes
api_key_scopes_to_role scopes = scan_scopes scopes (record { write = false; read = false })
