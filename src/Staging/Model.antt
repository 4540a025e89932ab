-- ===== src/Staging/Model.antt =====
-- internal/models/staged_change.go and audit.go. A JSON document is a text, empty where there is none.
use deploy_sentry.Base.{nat_eq, string_eq, ℕ, String, Option}

pub record StagedChange : Type 0 where
  pub id : ℕ
  pub user_id : ℕ
  pub org_id : ℕ
  pub resource_type : String
  pub resource_id : Option ℕ
  pub provisional_id : Option ℕ
  pub action : String
  pub field_path : String
  pub old_value : String
  pub new_value : String
  pub created_at : ℕ
  pub updated_at : ℕ

-- The name of the actor, the address and the agent are left empty; `revertible` is set on reading.
pub record AuditLogEntry : Type 0 where
  pub org_id : ℕ
  pub project_id : ℕ
  pub actor_id : ℕ
  pub action : String
  pub entity_type : String
  pub entity_id : ℕ
  pub old_value : String
  pub new_value : String
  pub created_at : ℕ
