-- ===== src/Deployment/Service/Repository.antt =====
-- internal/deploy/repository.go, the calls that internal/deploy/service.go makes of it. What SQL
-- does is a parameter: `none` is any error, a missing row included. The laws are those of the
-- statements in internal/platform/database/postgres/deploy.go, where UPDATE writes five columns and
-- the repository reads the clock again (`stored`).
use deploy_sentry.Base.{if◌then◌else◌, ◌==◌, nat_eq, string_eq, ℕ, ◌≡◌, Option, some}
use deploy_sentry.Deployment.{Deployment}

pub record DeployRepo : Type 1 where
  pub Db : Type 0
  pub get_deployment : Db → ℕ → Option Deployment
  pub create_deployment : ℕ → Db → Deployment → Option Db
  pub update_deployment : ℕ → Db → Deployment → Option Db
  pub latest_completed : Db → ℕ → ℕ → Option Deployment

-- `UPDATE deployments SET status, traffic_percent, started_at, completed_at, updated_at`
unfoldable pub save_columns : ℕ → Deployment → Deployment → Deployment
save_columns stored row d = record row {
  status = d.status;
  traffic_percent = d.traffic_percent;
  started_at = d.started_at;
  completed_at = d.completed_at;
  updated_at = stored;
}

-- `d.CreatedAt = now; d.UpdatedAt = now` before the INSERT.
unfoldable pub insert_columns : ℕ → Deployment → Deployment
insert_columns stored d = record d { created_at = stored; updated_at = stored }

pub record IsLawful (R : DeployRepo) : Type 0 where
  pub get_id : (s : R.Db) (i : ℕ) (d : Deployment) → R.get_deployment s i ≡ some d → d.id ≡ i
  pub get-update :
      (stored : ℕ) (s s' : R.Db) (d row : Deployment) (j : ℕ)
      → R.update_deployment stored s d ≡ some s'
      → R.get_deployment s d.id ≡ some row
      → R.get_deployment s' j
        ≡ (if j == d.id then some (save_columns stored row d) else R.get_deployment s j)
  pub get-create :
      (stored : ℕ) (s s' : R.Db) (d : Deployment) (j : ℕ)
      → R.create_deployment stored s d ≡ some s'
      → R.get_deployment s' j
        ≡ (if j == d.id then some (insert_columns stored d) else R.get_deployment s j)
