-- ===== src/Access/Keys.antt =====
-- internal/models/api_key.go: scoped keys of machines. The clock is an argument.
use deploy_sentry.Base.{
  ltb, if◌then◌else◌, ◌==◌, nat_eq, string_eq, is_some, length, ℕ, String, Bool, false, not, ◌||◌,
  Option, none, some, List, [], ◌∷◌,
}

abbrev pub ApiKeyScope : Type 0
ApiKeyScope = String

abbrev pub scope_read_flags : ApiKeyScope
scope_read_flags = "flags:read"

abbrev pub scope_write_flags : ApiKeyScope
scope_write_flags = "flags:write"

abbrev pub scope_read_deploys : ApiKeyScope
scope_read_deploys = "deploys:read"

abbrev pub scope_write_deploys : ApiKeyScope
scope_write_deploys = "deploys:write"

abbrev pub scope_read_releases : ApiKeyScope
scope_read_releases = "releases:read"

abbrev pub scope_write_releases : ApiKeyScope
scope_write_releases = "releases:write"

abbrev pub scope_status_write : ApiKeyScope
scope_status_write = "status:write"

abbrev pub scope_api_key_manage : ApiKeyScope
scope_api_key_manage = "apikey:manage"

abbrev pub scope_admin : ApiKeyScope
scope_admin = "admin"

abbrev pub all_api_key_scopes : List ApiKeyScope
all_api_key_scopes =
    scope_read_flags ∷ scope_write_flags ∷ scope_read_deploys ∷ scope_write_deploys
    ∷ scope_read_releases ∷ scope_write_releases ∷ scope_status_write ∷ scope_api_key_manage
    ∷ scope_admin ∷ []

pub record ApiKey : Type 0 where
  pub id : ℕ
  pub org_id : ℕ
  pub project_id : Option ℕ
  pub application_id : Option ℕ
  pub environment_ids : List ℕ
  pub name : String
  pub key_prefix : String
  pub key_hash : String
  pub scopes : List ApiKeyScope
  pub allowed_cidrs : List String
  pub expires_at : Option ℕ
  pub last_used_at : Option ℕ
  pub created_by : ℕ
  pub created_at : ℕ
  pub revoked_at : Option ℕ

pub data KeyError : Type 0 where
  org_required name_required scope_required : KeyError
  invalid_scope : ApiKeyScope → KeyError

-- The `case` of `validScope` lists the scopes in the order of `AllAPIKeyScopes`.
unfoldable pub valid_scope : ApiKeyScope → Bool
valid_scope s =
    s == scope_read_flags
    || s == scope_write_flags
    || s == scope_read_deploys
    || s == scope_write_deploys
    || s == scope_read_releases
    || s == scope_write_releases
    || s == scope_status_write
    || s == scope_api_key_manage
    || s == scope_admin

unfoldable pub validate_scopes : List ApiKeyScope → Option KeyError
unfolding valid_scope
validate_scopes [] = none
validate_scopes (s ∷ scopes) =
    if not (valid_scope s) then some (KeyError.invalid_scope s) else validate_scopes scopes

-- `uuid.Nil` is 0.
unfoldable pub validate_key : ApiKey → Option KeyError
unfolding validate_scopes
validate_key k =
    if k.org_id == 0
    then some KeyError.org_required
    else if k.name == ""
    then some KeyError.name_required
    else if length k.scopes == 0
    then some KeyError.scope_required
    else validate_scopes k.scopes

unfoldable pub is_expired : ℕ → ApiKey → Bool
is_expired now k = elim k.expires_at [ none ↦ false | some at ↦ ltb at now ]

unfoldable pub is_revoked : ApiKey → Bool
is_revoked k = is_some k.revoked_at

unfoldable pub scopes_grant : List ApiKeyScope → ApiKeyScope → Bool
scopes_grant [] scope = false
scopes_grant (s ∷ scopes) scope = s == scope_admin || s == scope || scopes_grant scopes scope

unfoldable pub has_scope : ApiKey → ApiKeyScope → Bool
unfolding scopes_grant
has_scope k scope = scopes_grant k.scopes scope
