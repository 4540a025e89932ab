-- ===== src/Access/Roles.antt =====
-- internal/auth/rbac.go: permissions and roles are texts, as in the source.
use deploy_sentry.Base.{
  if◌then◌else◌, ◌==◌, nat_eq, string_eq, contains, String, Bool, false, Option, none, some, List,
  [], ◌∷◌,
}

abbrev pub Permission : Type 0
Permission = String

abbrev pub Role : Type 0
Role = String

abbrev pub perm_deploy_create : Permission
perm_deploy_create = "deploy:create"

abbrev pub perm_deploy_read : Permission
perm_deploy_read = "deploy:read"

abbrev pub perm_deploy_promote : Permission
perm_deploy_promote = "deploy:promote"

abbrev pub perm_deploy_rollback : Permission
perm_deploy_rollback = "deploy:rollback"

abbrev pub perm_deploy_manage : Permission
perm_deploy_manage = "deploy:manage"

abbrev pub perm_flag_create : Permission
perm_flag_create = "flag:create"

abbrev pub perm_flag_read : Permission
perm_flag_read = "flag:read"

abbrev pub perm_flag_update : Permission
perm_flag_update = "flag:update"

abbrev pub perm_flag_toggle : Permission
perm_flag_toggle = "flag:toggle"

abbrev pub perm_flag_archive : Permission
perm_flag_archive = "flag:archive"

abbrev pub perm_release_create : Permission
perm_release_create = "release:create"

abbrev pub perm_release_read : Permission
perm_release_read = "release:read"

abbrev pub perm_release_promote : Permission
perm_release_promote = "release:promote"

abbrev pub perm_project_manage : Permission
perm_project_manage = "project:manage"

abbrev pub perm_org_manage : Permission
perm_org_manage = "org:manage"

abbrev pub perm_audit_read : Permission
perm_audit_read = "audit:read"

abbrev pub perm_api_key_manage : Permission
perm_api_key_manage = "apikey:manage"

abbrev pub perm_user_manage : Permission
perm_user_manage = "user:manage"

abbrev pub perm_env_deploy : Permission
perm_env_deploy = "env:deploy"

abbrev pub perm_billing_manage : Permission
perm_billing_manage = "billing:manage"

abbrev pub perm_settings_read : Permission
perm_settings_read = "settings:read"

abbrev pub perm_settings_write : Permission
perm_settings_write = "settings:write"

abbrev pub perm_group_manage : Permission
perm_group_manage = "group:manage"

abbrev pub perm_status_write : Permission
perm_status_write = "status:write"

abbrev pub role_owner : Role
role_owner = "owner"

abbrev pub role_admin : Role
role_admin = "admin"

abbrev pub role_developer : Role
role_developer = "developer"

abbrev pub role_viewer : Role
role_viewer = "viewer"

abbrev pub role_org_owner : Role
role_org_owner = "org:owner"

abbrev pub role_org_admin : Role
role_org_admin = "org:admin"

abbrev pub role_project_admin : Role
role_project_admin = "project:admin"

abbrev pub role_project_editor : Role
role_project_editor = "project:editor"

abbrev pub role_project_viewer : Role
role_project_viewer = "project:viewer"

abbrev pub role_env_deployer : Role
role_env_deployer = "environment:deployer"

-- `rolePermissions`
abbrev pub role_permissions : List (Role × List Permission)
role_permissions =
    (
      role_owner,
      perm_deploy_create ∷ perm_deploy_read ∷ perm_deploy_promote ∷ perm_deploy_rollback
          ∷ perm_deploy_manage ∷ perm_flag_create ∷ perm_flag_read ∷ perm_flag_update
          ∷ perm_flag_toggle ∷ perm_flag_archive ∷ perm_release_create ∷ perm_release_read
          ∷ perm_release_promote ∷ perm_project_manage ∷ perm_org_manage ∷ perm_audit_read
          ∷ perm_api_key_manage ∷ perm_settings_read ∷ perm_settings_write ∷ perm_group_manage
          ∷ perm_status_write ∷ [],
    )
    ∷ (
      role_admin,
      perm_deploy_create ∷ perm_deploy_read ∷ perm_deploy_promote ∷ perm_deploy_rollback
          ∷ perm_deploy_manage ∷ perm_flag_create ∷ perm_flag_read ∷ perm_flag_update
          ∷ perm_flag_toggle ∷ perm_flag_archive ∷ perm_release_create ∷ perm_release_read
          ∷ perm_release_promote ∷ perm_project_manage ∷ perm_audit_read ∷ perm_api_key_manage
          ∷ perm_settings_read ∷ perm_settings_write ∷ perm_group_manage ∷ perm_status_write ∷ [],
    )
    ∷ (
      role_developer,
      perm_deploy_create ∷ perm_deploy_read ∷ perm_deploy_promote ∷ perm_deploy_rollback
          ∷ perm_deploy_manage ∷ perm_flag_create ∷ perm_flag_read ∷ perm_flag_update
          ∷ perm_flag_toggle ∷ perm_release_create ∷ perm_release_read ∷ perm_release_promote
          ∷ perm_settings_read ∷ perm_status_write ∷ [],
    )
    ∷ (role_viewer, perm_deploy_read ∷ perm_flag_read ∷ perm_release_read ∷ perm_settings_read ∷ [])
    ∷ (
      role_org_owner,
      perm_deploy_create ∷ perm_deploy_read ∷ perm_deploy_promote ∷ perm_deploy_rollback
          ∷ perm_deploy_manage ∷ perm_flag_create ∷ perm_flag_read ∷ perm_flag_update
          ∷ perm_flag_toggle ∷ perm_flag_archive ∷ perm_release_create ∷ perm_release_read
          ∷ perm_release_promote ∷ perm_project_manage ∷ perm_org_manage ∷ perm_audit_read
          ∷ perm_api_key_manage ∷ perm_user_manage ∷ perm_env_deploy ∷ perm_billing_manage
          ∷ perm_settings_read ∷ perm_settings_write ∷ perm_group_manage ∷ perm_status_write ∷ [],
    )
    ∷ (
      role_org_admin,
      perm_deploy_create ∷ perm_deploy_read ∷ perm_deploy_promote ∷ perm_deploy_rollback
          ∷ perm_deploy_manage ∷ perm_flag_create ∷ perm_flag_read ∷ perm_flag_update
          ∷ perm_flag_toggle ∷ perm_flag_archive ∷ perm_release_create ∷ perm_release_read
          ∷ perm_release_promote ∷ perm_project_manage ∷ perm_audit_read ∷ perm_api_key_manage
          ∷ perm_user_manage ∷ perm_env_deploy ∷ perm_billing_manage ∷ perm_settings_read
          ∷ perm_settings_write ∷ perm_group_manage ∷ perm_status_write ∷ [],
    )
    ∷ (
      role_project_admin,
      perm_deploy_create ∷ perm_deploy_read ∷ perm_deploy_promote ∷ perm_deploy_rollback
          ∷ perm_deploy_manage ∷ perm_flag_create ∷ perm_flag_read ∷ perm_flag_update
          ∷ perm_flag_toggle ∷ perm_flag_archive ∷ perm_release_create ∷ perm_release_read
          ∷ perm_release_promote ∷ perm_project_manage ∷ perm_audit_read ∷ perm_api_key_manage
          ∷ perm_user_manage ∷ perm_env_deploy ∷ perm_status_write ∷ [],
    )
    ∷ (
      role_project_editor,
      perm_deploy_create ∷ perm_deploy_read ∷ perm_deploy_promote ∷ perm_deploy_rollback
          ∷ perm_deploy_manage ∷ perm_flag_create ∷ perm_flag_read ∷ perm_flag_update
          ∷ perm_flag_toggle ∷ perm_release_create ∷ perm_release_read ∷ perm_release_promote
          ∷ perm_env_deploy ∷ perm_status_write ∷ [],
    )
    ∷ (role_project_viewer, perm_deploy_read ∷ perm_flag_read ∷ perm_release_read ∷ [])
    ∷ (
      role_env_deployer,
      perm_deploy_create ∷ perm_deploy_read ∷ perm_env_deploy ∷ perm_status_write ∷ [],
    )
    ∷ []

-- `m[key]` of a map written as a list of rows.
unfoldable pub row {ℓ} : {A : Type ℓ} → List (String × A) → String → Option A
row [] key = none
row ((k, a) ∷ rows) key = if k == key then some a else row rows key

unfoldable pub has_permission : Role → Permission → Bool
unfolding row contains
has_permission role perm = elim (row role_permissions role) [
  | none ↦ false
  | some perms ↦ contains perms perm
]

-- `nil` for a role outside the table.
unfoldable pub get_permissions : Role → List Permission
unfolding row
get_permissions role = elim (row role_permissions role) [ none ↦ [] | some perms ↦ perms ]
