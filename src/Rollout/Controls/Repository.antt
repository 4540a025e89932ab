-- ===== src/Rollout/Controls/Repository.antt =====
-- internal/rollout/rollout_repository.go, the calls that the controls and the coordinator make of it.
-- What SQL does is a parameter: `none` is any error, a missing row included. The laws are those of
-- the statements in internal/platform/database/postgres/rollouts.go.
use deploy_sentry.Base.{
  ◌==◌, false, if◌then◌else◌, true, ◌≡◌, Bool, nat_eq, string_eq, ℕ, String, Option, none, some,
  List,
}
use mathlib.Core.Option
use deploy_sentry.Rollout.Strategy.{TargetType}
use deploy_sentry.Rollout.Model.{Rollout, RolloutStatus}

-- What a look-up of one row answers: an error of the database, that there is no row, or a row.
pub data Lookup (F : Type 0) : Type 0 where
  unanswered no_row : Lookup F
  found : Rollout F → Lookup F

pub record RolloutRepo (F : Type 0) : Type 1 where
  pub Db : Type 0
  pub get : Db → ℕ → Option (Rollout F)
  pub update_status : Db → ℕ → RolloutStatus → Option String → Option Db
  -- The clock is an argument; the rollout is returned with its identifier and creation time.
  pub create : ℕ → Db → Rollout F → Option (Rollout F × Db)
  pub active_by_deployment : Db → String → Lookup F
  pub active_by_rule : Db → String → Lookup F
  pub list_by_release : Db → ℕ → Option (List (Rollout F))

-- `COALESCE($2, rollback_reason)`
abbrev pub coalesce : Option String → Option String → Option String
coalesce none old = old
coalesce (some s) old = some s

-- `UPDATE rollouts SET status=$1, rollback_reason=COALESCE($2, rollback_reason)`
unfoldable pub status_columns : {F : Type 0} → RolloutStatus → Option String → Rollout F → Rollout F
status_columns status why row = record row {
  status = status;
  rollback_reason = coalesce why row.rollback_reason;
}

-- `status IN ('pending','active','paused','awaiting_approval')`
unfoldable pub is_open : RolloutStatus → Bool
is_open RolloutStatus.pending = true
is_open RolloutStatus.active = true
is_open RolloutStatus.paused = true
is_open RolloutStatus.awaiting_approval = true
is_open _ = false

-- An open rollout of the deployment, or of the targeting rule.
abbrev pub OpensDeployment : {F : Type 0} → String → Rollout F → Type 0
OpensDeployment ref ro =
    (ro.target_type ≡ TargetType.deploy)
    × (ro.target_ref.deployment_id ≡ some ref)
    × (is_open ro.status ≡ true)

abbrev pub OpensRule : {F : Type 0} → String → Rollout F → Type 0
OpensRule ref ro =
    (ro.target_type ≡ TargetType.config)
    × (ro.target_ref.rule_id ≡ some ref)
    × (is_open ro.status ≡ true)

pub record IsLawful (F : Type 0) (R : RolloutRepo F) : Type 0 where
  pub get_id : (s : R.Db) (i : ℕ) (ro : Rollout F) → R.get s i ≡ some ro → ro.id ≡ i
  -- UPDATE of a row that is not there does nothing.
  pub get-update_status :
      (s s' : R.Db) (i : ℕ) (status : RolloutStatus) (why : Option String) (j : ℕ)
      → R.update_status s i status why ≡ some s'
      → R.get s' j
        ≡ (if j == i then Option.map (status_columns status why) (R.get s j) else R.get s j)
  -- A new row, under an identifier that no row has.
  pub get-create :
      (stored : ℕ) (s s' : R.Db) (ro created : Rollout F) (j : ℕ)
      → R.create stored s ro ≡ some (created, s')
      → R.get s' j ≡ (if j == created.id then some created else R.get s j)
  pub create_columns :
      (stored : ℕ) (s s' : R.Db) (ro created : Rollout F)
      → R.create stored s ro ≡ some (created, s')
      → (created ≡ record ro { id = created.id; created_at = stored }) × (R.get s created.id ≡ none)
  -- A look-up that answers that there is no row is right; one that fails says nothing.
  pub find_deployment :
      (s : R.Db) (ref : String) (i : ℕ) (ro : Rollout F)
      → R.active_by_deployment s ref ≡ Lookup.no_row
      → R.get s i ≡ some ro
      → ¬ OpensDeployment ref ro
  pub find_rule :
      (s : R.Db) (ref : String) (i : ℕ) (ro : Rollout F)
      → R.active_by_rule s ref ≡ Lookup.no_row
      → R.get s i ≡ some ro
      → ¬ OpensRule ref ro
