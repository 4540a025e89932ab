-- ===== src/Access/Decision.antt =====
-- internal/auth/rbac.go: what a request may do, through both handlers of its path.
use deploy_sentry.Base.{
  if◌then◌else◌, ◌==◌, nat_eq, string_eq, ℕ, String, ◌≡◌, Bool, true, false, Option, none, some,
  arith,
}
use deploy_sentry.Access.Roles.{Permission, Role, has_permission}
use deploy_sentry.Access.Middleware.{
  check_role, check_owner, Slot, OwnershipChecker, RoleValue, set_role, Uuids, abort,
  validate_resource_ownership, require_permission, Context, next, resolve_org_role, set_key_role,
  Outcome, is_api_key, OrgRoleLookup, scopes_of, then_next,
}
use deploy_sentry.Access.Scopes.{scope_satisfies}

unfoldable pub passes : Outcome → Bool
passes (next c) = true
passes (abort status message) = false

-- The organization and the role that the request's user has, by its slug or by default.
unfoldable pub role_found : OrgRoleLookup → String → ℕ → Option (ℕ × Role)
role_found l slug user =
    if slug == "" then l.get_user_default_org_role user else elim (l.get_org_id_by_slug slug) [
      | none ↦ none
      | some org ↦ elim (l.get_org_member_role org user) [
        | none ↦ none
        | some role ↦ some (org, role)
      ]
    ]

unfoldable pub role_allows : Option (ℕ × Role) → Permission → Bool
role_allows none perm = false
role_allows (some (org, role)) perm = has_permission role perm

pub is_api_key-set_key_role : (c : Context) → is_api_key (set_key_role c) ≡ is_api_key c
unfolding is_api_key set_key_role
is_api_key-set_key_role c = ground arith

pub scopes_of-set_key_role : (c : Context) → scopes_of (set_key_role c) ≡ scopes_of c
unfolding scopes_of set_key_role
scopes_of-set_key_role c = ground arith

-- A request with an API key passes both handlers exactly when the scopes of its key satisfy the
-- permission: the role that the first handler sets for it, and one that was set before, decide
-- nothing.
pub require_permission-resolve_org_role :
    (l : OrgRoleLookup) (u : Uuids) (slug : String) (perm : Permission) (c : Context)
    → is_api_key c ≡ true
    → passes (then_next (resolve_org_role l u slug c) (require_permission perm))
      ≡ scope_satisfies (scopes_of c) perm
unfolding passes then_next resolve_org_role require_permission
require_permission-resolve_org_role l u slug perm c key =
    ground (arith, is_api_key-set_key_role c, scopes_of-set_key_role c)

-- A session's request with no role set before passes both handlers exactly when its user has a role,
-- in the organization of the slug or, without a slug, the default one, and the table gives the role
-- the permission.
pub require_permission-role_found :
    (l : OrgRoleLookup) (u : Uuids) (slug : String) (perm : Permission) (c : Context) (user : ℕ)
    → is_api_key c ≡ false
    → c.role ≡ RoleValue.unset
    → c.user_id ≡ Slot.holds user
    → passes (then_next (resolve_org_role l u slug c) (require_permission perm))
      ≡ role_allows (role_found l slug user) perm
unfolding passes then_next resolve_org_role require_permission role_allows role_found is_api_key
    set_role check_role
require_permission-role_found l u slug perm c user session unset user_is = ground arith

-- Behind the handler that resolves the role, where the member's role is found, the ownership handler
-- asks about exactly the resolved organization and the request's user, when printed identifiers parse
-- back.
pub validate_resource_ownership-resolve_org_role :
    (l : OrgRoleLookup) (u : Uuids) (slug : String) (owns : OwnershipChecker)
    (resource_type param : String) (c : Context) (user org : ℕ) (role : Role)
    → ((i : ℕ) → u.parse (u.print i) ≡ some i)
    → is_api_key c ≡ false
    → c.user_id ≡ Slot.holds user
    → role_found l slug user ≡ some (org, role)
    → then_next
        (resolve_org_role l u slug c)
        (validate_resource_ownership owns u resource_type param)
      ≡ check_owner owns u resource_type param (set_role u c org role) user org
unfolding then_next resolve_org_role validate_resource_ownership role_found set_role
validate_resource_ownership-resolve_org_role l u slug owns resource_type param c user org role back
      session user_is found =
    ground (arith, back org)
