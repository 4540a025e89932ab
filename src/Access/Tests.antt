-- ===== src/Access/Tests.antt =====
-- internal/auth/rbac.go on concrete requests.
use Prim.Native.String.{◌++◌ as ◌then◌, len}
use text.Mathlib.TextPositions.{len-append}
use deploy_sentry.Base.{
  if◌then◌else◌, ◌==◌, nat_eq, string_eq, contains, ℕ, zero, suc, String, ◌≡◌, refl, true, false,
  none, some, [], ◌∷◌, arith,
}
use deploy_sentry.Access.Decision.{
  require_permission-role_found, validate_resource_ownership-resolve_org_role, role_found,
  require_permission-resolve_org_role, role_allows, passes,
}
use deploy_sentry.Access.Middleware.{
  is_api_key, is_api_key, set_role, scopes_of, check_owner, validate_resource_ownership,
  require_permission, RoleValue, resolve_org_role, Slot, Uuids, then_next, Context, OrgRoleLookup,
}
use deploy_sentry.Access.Keys.{validate_key, ApiKey}
use deploy_sentry.Access.Scopes.{
  wanted_scopes, wanted_scopes, api_key_scopes_to_role, scope_satisfies,
}
use deploy_sentry.Access.Roles.{
  perm_flag_toggle, perm_flag_read, role_org_admin, perm_billing_manage, role_owner,
  perm_flag_archive, role_developer, has_permission,
}

abbrev key_request : Context
key_request = record {
  auth_method = Slot.holds "api_key";
  api_key_scopes = Slot.holds ("flags:write" ∷ []);
  role = RoleValue.unset;
  user_id = Slot.unset;
  org_id = Slot.unset;
}

abbrev user_request : Context
user_request = record {
  auth_method = Slot.holds "jwt";
  api_key_scopes = Slot.unset;
  role = RoleValue.unset;
  user_id = Slot.holds 7;
  org_id = Slot.unset;
}

-- The organization "acme" is 4, and its user 7 is a developer.
abbrev acme : OrgRoleLookup
acme = record {
  get_org_id_by_slug = λ slug. if slug == "acme" then some 4 else none;
  get_org_member_role = λ org user. if user == 7 then some role_developer else none;
  get_user_default_org_role = λ user. none;
}

-- Identifiers in unary.
unfoldable pub ticks : ℕ → String
ticks zero = ""
ticks (suc n) = "i" then ticks n

pub some-len-ticks : (n : ℕ) → some (len (ticks n)) ≡ some n
unfolding ticks
some-len-ticks zero = refl
some-len-ticks (suc n) = ground (arith, len-append "i" (ticks n), some-len-ticks n)

abbrev uuids : Uuids
uuids = record { parse = λ text. some (len text); print = ticks }

abbrev ci_key : ApiKey
ci_key = record {
  id = 1;
  org_id = 4;
  project_id = none;
  application_id = none;
  environment_ids = [];
  name = "ci";
  key_prefix = "ds_";
  key_hash = "";
  scopes = "deploys:read" ∷ "status:write" ∷ [];
  allowed_cidrs = [];
  expires_at = some 90;
  last_used_at = none;
  created_by = 7;
  created_at = 1;
  revoked_at = none;
}

ci_key_is_valid : validate_key ci_key ≡ none
unfolding validate_key
ci_key_is_valid = refl

-- The role that a key with "flags:write" is mapped to lacks a permission that the scope satisfies.
key_role_lacks_archive :
    (scope_satisfies ("flags:write" ∷ []) perm_flag_archive ≡ true)
    × (has_permission (api_key_scopes_to_role ("flags:write" ∷ [])) perm_flag_archive ≡ false)
unfolding scope_satisfies contains wanted_scopes has_permission api_key_scopes_to_role
key_role_lacks_archive = (refl, refl)

-- The owner's role lacks permissions that an administrator of an organization has.
owner_lacks_billing :
    (has_permission role_owner perm_billing_manage ≡ false)
    × (has_permission role_org_admin perm_billing_manage ≡ true)
unfolding has_permission
owner_lacks_billing = (refl, refl)

require_permission-resolve_org_role_example :
    passes
      (then_next (resolve_org_role acme uuids "" key_request) (require_permission perm_flag_read))
    ≡ scope_satisfies (scopes_of key_request) perm_flag_read
unfolding is_api_key
require_permission-resolve_org_role_example =
    require_permission-resolve_org_role acme uuids "" perm_flag_read key_request refl

require_permission-role_found_example :
    passes (
      then_next
        (resolve_org_role acme uuids "acme" user_request)
        (require_permission perm_flag_toggle))
    ≡ role_allows (role_found acme "acme" 7) perm_flag_toggle
unfolding is_api_key
require_permission-role_found_example =
    require_permission-role_found acme uuids "acme" perm_flag_toggle user_request 7 refl refl refl

validate_resource_ownership-resolve_org_role_example :
    then_next
      (resolve_org_role acme uuids "acme" user_request)
      (validate_resource_ownership (λ t resource user org. some (org == 4)) uuids "flag" "xyz")
    ≡ check_owner
        (λ t resource user org. some (org == 4))
        uuids
        "flag"
        "xyz"
        (set_role uuids user_request 4 role_developer)
        7
        4
unfolding is_api_key role_found
validate_resource_ownership-resolve_org_role_example =
    validate_resource_ownership-resolve_org_role acme uuids "acme"
      (λ t resource user org. some (org == 4)) "flag" "xyz" user_request 7 4 role_developer
      some-len-ticks refl refl refl
