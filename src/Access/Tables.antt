-- ===== src/Access/Tables.antt =====
-- internal/auth/rbac.go: which roles include which, and what the scopes of keys reach.
use deploy_sentry.Base.{
  ◌==◌, nat_eq, string_eq, contains, all, String, ◌≡◌, refl, sym, ◌∙◌, Bool, true, false, none,
  some, List, [], ◌∷◌, arith,
}
use deploy_sentry.Access.Roles.{
  role_env_deployer, role_project_admin, role_project_editor, role_org_admin, role_org_owner,
  role_owner, role_admin, role_developer, role_viewer, role_project_viewer, role_permissions, row,
  get_permissions, Permission, has_permission, Role,
}

unfoldable pub includes_all : List String → List String → Bool
unfolding contains
includes_all big small = all (contains big) small

-- A table that has the rows of another's has its entries.
pub contains-includes_all :
    (big small : List String) (s : String)
    → includes_all big small ≡ true
    → contains small s ≡ true
    → contains big s ≡ true
unfolding includes_all contains
contains-includes_all big [] s i h = ground arith
contains-includes_all big (x ∷ small) s i h =
    let rest = contains-includes_all big small s in by_test (x == s) refl rest
  where
    by_test :
        (b : Bool)
        → (x == s) ≡ b
        → (includes_all big small ≡ true → contains small s ≡ true → contains big s ≡ true)
        → contains big s ≡ true
    by_test true eq rest = ground (arith, string_eq.equal_iff x s)
    by_test false eq rest = ground (arith, rest)

-- Every permission of the first role is one of the second.
pub Within : Role → Role → Type 0
Within r s = (perm : Permission) → has_permission r perm ≡ true → has_permission s perm ≡ true

has_permission-get_permissions :
    (r : Role) (perm : Permission) → has_permission r perm ≡ contains (get_permissions r) perm
unfolding has_permission get_permissions contains
has_permission-get_permissions r perm =
    elim (row role_permissions r)
      as (λ found.
        elim found as (λ x. Bool) [ none ↦ false | some perms ↦ contains perms perm ]
        ≡ contains (elim found as (λ x. List Permission) [ none ↦ [] | some perms ↦ perms ]) perm) [
          | none ↦ refl
          | some perms ↦ refl
        ]

has_permission-Within :
    (r s : Role) → includes_all (get_permissions s) (get_permissions r) ≡ true → Within r s
unfolding Within
has_permission-Within r s i perm h =
    has_permission-get_permissions s perm
    ∙ contains-includes_all (get_permissions s) (get_permissions r) perm i
        (sym (has_permission-get_permissions r perm) ∙ h)

pub record RoleOrder : Type 0 where
  pub project_viewer_viewer : Within role_project_viewer role_viewer
  pub viewer_developer : Within role_viewer role_developer
  pub developer_admin : Within role_developer role_admin
  pub admin_owner : Within role_admin role_owner
  pub owner_org_owner : Within role_owner role_org_owner
  pub admin_org_admin : Within role_admin role_org_admin
  pub org_admin_org_owner : Within role_org_admin role_org_owner
  pub project_viewer_project_editor : Within role_project_viewer role_project_editor
  pub project_editor_project_admin : Within role_project_editor role_project_admin
  pub project_admin_org_admin : Within role_project_admin role_org_admin
  pub env_deployer_project_editor : Within role_env_deployer role_project_editor

-- Each role has all permissions of the roles under it: viewer, developer, admin, owner and
-- organization owner form a chain, as do project viewer, project editor, project admin,
-- organization admin and organization owner; admin is under organization admin, project viewer
-- under viewer and environment deployer under project editor.
pub has_permission-RoleOrder : RoleOrder
unfolding get_permissions row includes_all contains
has_permission-RoleOrder = record {
  project_viewer_viewer = has_permission-Within role_project_viewer role_viewer refl;
  viewer_developer = has_permission-Within role_viewer role_developer refl;
  developer_admin = has_permission-Within role_developer role_admin refl;
  admin_owner = has_permission-Within role_admin role_owner refl;
  owner_org_owner = has_permission-Within role_owner role_org_owner refl;
  admin_org_admin = has_permission-Within role_admin role_org_admin refl;
  org_admin_org_owner = has_permission-Within role_org_admin role_org_owner refl;
  project_viewer_project_editor =
      has_permission-Within role_project_viewer role_project_editor refl;
  project_editor_project_admin = has_permission-Within role_project_editor role_project_admin refl;
  project_admin_org_admin = has_permission-Within role_project_admin role_org_admin refl;
  env_deployer_project_editor = has_permission-Within role_env_deployer role_project_editor refl;
}
