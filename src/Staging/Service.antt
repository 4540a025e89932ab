-- ===== src/Staging/Service.antt =====
-- internal/staging/service.go and sweep.go: the operations of the service. What the repository only
-- passes on, the lists and counts, is left out.
use deploy_sentry.Base.{
  if◌then◌else◌, ◌==◌, nat_eq, string_eq, length, ℕ, ◌⊎◌, inl, inr, Bool, true, false, not, ◌||◌,
  Option, none, some, List, [], ◌∷◌, ◌++◌,
}
use deploy_sentry.Staging.Commit.{
  panics, stops, runs, dispatch_all, CommitError, Outcome, Reason, World, Run, Service,
}
use deploy_sentry.Staging.Model.{AuditLogEntry, StagedChange}
use deploy_sentry.Staging.Provisional.{is_provisional}
use deploy_sentry.Staging.Overlay.{kept}
use deploy_sentry.Staging.Preflight.{PlanError, plan_batch}

pub data StageError : Type 0 where
  owner_required type_required not_provisional provisional_resource : StageError
  repository : StageError

-- A test of an identifier that may be missing.
unfoldable pub some_id : (ℕ → Bool) → Option ℕ → Bool
some_id test none = false
some_id test (some id) = test id

unfoldable pub check_stage : StagedChange → Option StageError
check_stage row =
    if row.user_id == 0 || row.org_id == 0
    then some StageError.owner_required
    else if row.resource_type == "" || row.action == ""
    then some StageError.type_required
    else if some_id (λ id. not (is_provisional id)) row.provisional_id
    then some StageError.not_provisional
    else if some_id is_provisional row.resource_id
    then some StageError.provisional_resource
    else none

-- `Upsert`, with `none` for an error.
unfoldable pub stage :
    {D : Type 0} → (D → StagedChange → Option D) → D → StagedChange → StageError ⊎ D
stage upsert db row = elim (check_stage row) [
  | some error ↦ inl error
  | none ↦ elim (upsert db row) [ none ↦ inl StageError.repository | some after ↦ inr after ]
]

module _ {D : Type 0} (s : Service D) where
  unfoldable pub empty_run : D → Run D
  empty_run db = record { db = db; resolver = []; committed = []; entries = []; hooks = [] }

  -- The audit rows that cannot be written.
  unfoldable pub unwritten : List AuditLogEntry → List AuditLogEntry
  unwritten entries = elim s.write_audit [
    | none ↦ []
    | some write ↦ kept (λ e. if write e then none else some e) entries
  ]

  unfoldable pub written : List AuditLogEntry → List AuditLogEntry
  written entries = elim s.write_audit [
    | none ↦ []
    | some write ↦ kept (λ e. if write e then some e else none) entries
  ]

  -- After `tx.Commit`: the hooks, and then the audit.
  unfoldable pub after_commit : World D → Run D → D → World D × Outcome
  after_commit w run db = (
    record {
      db = db;
      hooks_run = w.hooks_run ++ run.hooks;
      audit_log = w.audit_log ++ written run.entries;
    },
    Outcome.result
        (record { committed_ids = run.committed; failed_id = none; failed_reason = none })
        (unwritten run.entries),
  )

  unfoldable pub close : World D → ℕ → ℕ → Run D → World D × Outcome
  close w user org run = elim (s.delete_by_ids run.db user org run.committed) [
    | none ↦ (w, Outcome.failed CommitError.delete_staged_rows)
    | some db ↦
        if not (s.commits db)
        then (w, Outcome.failed CommitError.tx_commit)
        else after_commit w run db
  ]

  unfoldable pub failed_row : List ℕ → ℕ → Reason → Outcome
  failed_row committed id reason =
      Outcome.result
        (record { committed_ids = committed; failed_id = some id; failed_reason = some reason }) []

  unfoldable pub run_plan : World D → ℕ → ℕ → ℕ → ℕ → List StagedChange → World D × Outcome
  run_plan w user org actor now rows =
      if not s.begins
      then (w, Outcome.failed CommitError.begin_tx)
      else elim (dispatch_all s actor now (empty_run w.db) rows) [
        | runs run ↦ close w user org run
        | stops committed id reason ↦ (w, failed_row committed id reason)
        | panics ↦ (w, Outcome.panicked)
      ]

  unfoldable pub commit_rows : World D → ℕ → ℕ → ℕ → ℕ → List StagedChange → World D × Outcome
  commit_rows w user org actor now rows = elim (plan_batch s.texts rows) [
    | inl error ↦ elim error [
      | PlanError.unreadable id ↦ (w, Outcome.failed CommitError.preflight)
      | PlanError.unresolved id ref ↦ (w, failed_row [] id (Reason.unresolved id ref))
    ]
    | inr plan ↦ run_plan w user org actor now plan.ordered
  ]

  unfoldable pub commit : World D → ℕ → ℕ → ℕ → ℕ → List ℕ → World D × Outcome
  commit w user org actor now ids =
      if length ids == 0
      then (
        w,
        Outcome.result (record { committed_ids = []; failed_id = none; failed_reason = none }) [],
      )
      else elim (s.get_by_ids w.db user org ids) [
        | none ↦ (w, Outcome.failed CommitError.load_rows)
        | some rows ↦
            if not (length rows == length ids)
            then (w, Outcome.failed CommitError.rows_missing)
            else commit_rows w user org actor now rows
      ]

  -- `none` for an error.
  unfoldable pub discard_one : World D → ℕ → ℕ → ℕ → World D × Bool
  discard_one w user org id =
      if not s.begins then (w, false) else elim (s.delete_by_ids w.db user org (id ∷ [])) [
        | none ↦ (w, false)
        | some db ↦ if s.commits db then (record w { db = db }, true) else (w, false)
      ]
