-- ===== src/Access/Middleware.antt =====
-- internal/auth/rbac.go: the handlers that a request passes, over the values of its context.
use deploy_sentry.Base.{
  if◌then◌else◌, ◌==◌, nat_eq, string_eq, ℕ, String, Bool, false, not, Option, none, some, List, [],
}
use deploy_sentry.Access.Scopes.{scope_satisfies, api_key_scopes_to_role}
use deploy_sentry.Access.Roles.{Permission, Role, has_permission}
use deploy_sentry.Access.Keys.{ApiKeyScope}

-- `c.Get("role")`: unset, a `Role`, a `string`, or a value of another type.
pub data RoleValue : Type 0 where
  unset : RoleValue
  of_role of_string : Role → RoleValue
  of_other : RoleValue

-- A value that is unset, of the wanted type, or of another.
pub data Slot {ℓ} (A : Type ℓ) : Type ℓ where
  unset : Slot A
  holds : A → Slot A
  of_other : Slot A

pub record Context : Type 0 where
  pub auth_method : Slot String
  pub api_key_scopes : Slot (List ApiKeyScope)
  pub role : RoleValue
  pub user_id : Slot ℕ
  pub org_id : Slot String

-- `c.Next()`, or the status and the error with which the handler aborts.
pub data Outcome : Type 0 where
  next : Context → Outcome
  abort : ℕ → String → Outcome

unfoldable pub is_api_key : Context → Bool
is_api_key c = elim c.auth_method [ unset ↦ false | holds m ↦ m == "api_key" | of_other ↦ false ]

-- `scopes, _ := scopesVal.([]string)`
unfoldable pub scopes_of : Context → List ApiKeyScope
scopes_of c = elim c.api_key_scopes [ unset ↦ [] | holds ss ↦ ss | of_other ↦ [] ]

unfoldable pub check_role : Permission → Context → Role → Outcome
check_role perm c role =
    if not (has_permission role perm)
    then Outcome.abort 403 "insufficient permissions"
    else Outcome.next c

-- The hint of the answer is `scope_hints`.
unfoldable pub require_permission : Permission → Context → Outcome
require_permission perm c =
    if is_api_key c
    then if scope_satisfies (scopes_of c) perm
      then Outcome.next c
      else Outcome.abort 403 "insufficient permissions"
    else elim c.role [
      | unset ↦ Outcome.abort 403 "role not determined"
      | of_role role ↦ check_role perm c role
      | of_string role ↦ check_role perm c role
      | of_other ↦ Outcome.abort 403 "invalid role format"
    ]

-- `OrgRoleLookup`, `none` for an error.
pub record OrgRoleLookup : Type 0 where
  pub get_org_id_by_slug : String → Option ℕ
  pub get_org_member_role : ℕ → ℕ → Option Role
  pub get_user_default_org_role : ℕ → Option (ℕ × Role)

-- `uuid.Parse` and `UUID.String` of a package outside the repository.
pub record Uuids : Type 0 where
  pub parse : String → Option ℕ
  pub print : ℕ → String

-- `c.Set("role", Role(role))` and `c.Set("org_id", orgID.String())`.
unfoldable pub set_role : Uuids → Context → ℕ → Role → Context
set_role u c org role = record c {
  role = RoleValue.of_role role;
  org_id = Slot.holds (u.print org);
}

unfoldable pub set_key_role : Context → Context
set_key_role c = elim c.role [
  | unset ↦ elim c.api_key_scopes [
    | unset ↦ c
    | holds ss ↦
        let role : Role = api_key_scopes_to_role ss in
        if role == "" then c else record c { role = RoleValue.of_role role }
    | of_other ↦ c
  ]
  | of_role role ↦ c
  | of_string role ↦ c
  | of_other ↦ c
]

unfoldable pub resolve_org_role : OrgRoleLookup → Uuids → String → Context → Outcome
resolve_org_role l u slug c =
    if is_api_key c then Outcome.next (set_key_role c) else elim c.user_id [
      | unset ↦ Outcome.next c
      | of_other ↦ Outcome.next c
      | holds user ↦
          if not (slug == "")
          then elim (l.get_org_id_by_slug slug) [
            | none ↦ Outcome.abort 404 "organization not found"
            | some org ↦ elim (l.get_org_member_role org user) [
              | none ↦ Outcome.next c
              | some role ↦ Outcome.next (set_role u c org role)
            ]
          ]
          else elim (l.get_user_default_org_role user) [
            | none ↦ Outcome.next c
            | some (org, role) ↦ Outcome.next (set_role u c org role)
          ]
    ]

-- One handler after another.
unfoldable pub then_next : Outcome → (Context → Outcome) → Outcome
then_next (next c) handler = handler c
then_next (abort status message) handler = Outcome.abort status message

-- `IsResourceOwner resourceType resourceID userID orgID`, `none` for an error.
abbrev pub OwnershipChecker : Type 0
OwnershipChecker = String → ℕ → ℕ → ℕ → Option Bool

unfoldable pub check_owner : OwnershipChecker → Uuids → String → String → Context → ℕ → ℕ → Outcome
check_owner owns u resource_type param c user org =
    if param == "" then Outcome.abort 400 "resource id is required" else elim (u.parse param) [
      | none ↦ Outcome.abort 400 "invalid resource id"
      | some resource ↦ elim (owns resource_type resource user org) [
        | none ↦ Outcome.abort 500 "failed to validate resource ownership"
        | some is_owner ↦
            if not is_owner
            then Outcome.abort 403 "resource does not belong to your organization"
            else Outcome.next c
      ]
    ]

unfoldable pub validate_resource_ownership :
    OwnershipChecker → Uuids → String → String → Context → Outcome
validate_resource_ownership owns u resource_type param c = elim c.user_id [
  | unset ↦ Outcome.abort 401 "authentication required"
  | of_other ↦ Outcome.abort 401 "invalid user identity"
  | holds user ↦ elim c.org_id [
    | unset ↦ Outcome.abort 403 "organization context required"
    | of_other ↦ Outcome.abort 403 "invalid organization identity"
    | holds text ↦ elim (u.parse text) [
      | none ↦ Outcome.abort 403 "invalid organization identity"
      | some org ↦ check_owner owns u resource_type param c user org
    ]
  ]
]
