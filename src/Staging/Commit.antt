-- ===== src/Staging/Commit.antt =====
-- internal/staging/registry.go and service.go: the deploy of staged rows in one transaction. The
-- database is a value of any type; a transaction works on a copy, which becomes the database when it is
-- committed.
use deploy_sentry.Base.{
  if◌then◌else◌, ◌==◌, nat_eq, string_eq, ℕ, String, Bool, Option, none, some, List, [], ◌∷◌, ◌++◌,
}
use Prim.Native.String.{◌++◌ as ◌then◌, len, slice}
use deploy_sentry.Staging.Model.{StagedChange, AuditLogEntry}
use deploy_sentry.Staging.Resolver.{rewrite_row, bind, Resolver}
use deploy_sentry.Staging.Json.{Texts}
use deploy_sentry.Staging.Provisional.{is_provisional}

pub data Reason : Type 0 where
  handler_error : String → Reason
  no_commit_handler : String → String → Reason
  unresolved : ℕ → ℕ → Reason
  unreadable : Reason

-- What a create handler answers: the database after it, the real identifier, the action for the audit
-- and the hook to run after the commit; hooks are numbered.
pub data Created (D : Type 0) : Type 0 where
  refused : String → Created D
  created : D → ℕ → String → Option ℕ → Created D

pub data Applied (D : Type 0) : Type 0 where
  refused : String → Applied D
  applied : D → String → Applied D

unfoldable pub commit_key : String → String → String
commit_key resource_type action = (resource_type then ":") then action

pub record Service (D : Type 0) : Type 0 where
  -- The two registries, by `commitKey`; that of the creates may be missing.
  pub handlers : String → Option (D → StagedChange → Applied D)
  pub creates : Option (String → Option (D → StagedChange → Created D))
  -- `GetByIDs`, `BeginTx`, `DeleteByIDsTx` and the transaction's `Commit`, `none` or `false` for an
  -- error.
  pub get_by_ids : D → ℕ → ℕ → List ℕ → Option (List StagedChange)
  pub begins : Bool
  pub delete_by_ids : D → ℕ → ℕ → List ℕ → Option D
  pub commits : D → Bool
  -- `WriteAuditLog`, where the service has an audit, and the quoted instant of `%q`.
  pub write_audit : Option (AuditLogEntry → Bool)
  pub quoted : ℕ → String
  pub texts : Texts

pub record CommitResult : Type 0 where
  pub committed_ids : List ℕ
  pub failed_id : Option ℕ
  pub failed_reason : Option Reason

pub data CommitError : Type 0 where
  load_rows rows_missing preflight begin_tx delete_staged_rows tx_commit : CommitError

-- A result, with the audit rows that could not be written; an error; or a panic.
pub data Outcome : Type 0 where
  result : CommitResult → List AuditLogEntry → Outcome
  failed : CommitError → Outcome
  panicked : Outcome

pub record World (D : Type 0) : Type 0 where
  pub db : D
  pub hooks_run : List ℕ
  pub audit_log : List AuditLogEntry

-- What the loop has done.
pub record Run (D : Type 0) : Type 0 where
  pub db : D
  pub resolver : Resolver
  pub committed : List ℕ
  pub entries : List AuditLogEntry
  pub hooks : List ℕ

pub data Loop (D : Type 0) : Type 0 where
  runs : Run D → Loop D
  stops : List ℕ → ℕ → Reason → Loop D
  panics : Loop D

abbrev at_zero : Option ℕ → ℕ
at_zero none = 0
at_zero (some id) = id

module _ {D : Type 0} (s : Service D) (actor now : ℕ) where
  unfoldable pub staged_new_value : String → ℕ → String
  staged_new_value new_val staged_at =
      let stamped : String = "{\"_staged_at\":" then s.quoted staged_at in
      if new_val == ""
      then stamped
      then "}"
      else if slice new_val 0 1 == "{"
      then if new_val == "{}" then stamped then "}" else (stamped then ",")
      then slice new_val 1 (len new_val)
      else ((stamped then ",\"value\":") then new_val) then "}"

  unfoldable pub build_audit_entry : StagedChange → String → AuditLogEntry
  build_audit_entry r action = record {
    org_id = r.org_id;
    project_id = 0;
    actor_id = actor;
    action = action;
    entity_type = r.resource_type;
    entity_id = at_zero r.resource_id;
    old_value = r.old_value;
    new_value = staged_new_value r.new_value r.created_at;
    created_at = now;
  }

  -- The handler of a row that mints an identifier.
  unfoldable pub create_handler : StagedChange → Option (D → StagedChange → Created D)
  create_handler r = elim r.provisional_id [
    | none ↦ none
    | some p ↦ elim s.creates [
      | none ↦ none
      | some registry ↦ registry (commit_key r.resource_type r.action)
    ]
  ]

  unfoldable pub with_hook : List ℕ → Option ℕ → List ℕ
  with_hook hooks none = hooks
  with_hook hooks (some hook) = hooks ++ (hook ∷ [])

  unfoldable pub after_create : Run D → StagedChange → D → ℕ → String → Option ℕ → Loop D
  after_create run r db real action hook =
      let entry : AuditLogEntry = record (build_audit_entry r action) { entity_id = real } in
      elim (bind run.resolver (at_zero r.provisional_id) real) [
        | none ↦ Loop.panics
        | some resolver ↦
            if is_provisional real
            then Loop.panics
            else Loop.runs (record {
              db = db;
              resolver = resolver;
              committed = run.committed ++ (r.id ∷ []);
              entries = run.entries ++ (entry ∷ []);
              hooks = with_hook run.hooks hook;
            })
      ]

  unfoldable pub after_mutation : Run D → StagedChange → D → String → Loop D
  after_mutation run r db action =
      let entry : AuditLogEntry = build_audit_entry r action in
      if is_provisional entry.entity_id
      then Loop.panics
      else Loop.runs (record run {
        db = db;
        committed = run.committed ++ (r.id ∷ []);
        entries = run.entries ++ (entry ∷ []);
      })

  unfoldable pub dispatch_create : Run D → StagedChange → (D → StagedChange → Created D) → Loop D
  dispatch_create run r handler = elim (handler run.db r) [
    | refused message ↦ Loop.stops run.committed r.id (Reason.handler_error message)
    | created db real action hook ↦ after_create run r db real action hook
  ]

  unfoldable pub dispatch_rewritten : Run D → StagedChange → Loop D
  dispatch_rewritten run r = elim (s.handlers (commit_key r.resource_type r.action)) [
    | none ↦ Loop.stops run.committed r.id (Reason.no_commit_handler r.resource_type r.action)
    | some handler ↦ elim (handler run.db r) [
      | refused message ↦ Loop.stops run.committed r.id (Reason.handler_error message)
      | applied db action ↦ after_mutation run r db action
    ]
  ]

  unfoldable pub dispatch : Run D → StagedChange → Loop D
  dispatch run r = elim (create_handler r) [
    | some handler ↦ dispatch_create run r handler
    | none ↦ elim (rewrite_row s.texts run.resolver r) [
      | none ↦ Loop.stops run.committed r.id Reason.unreadable
      | some after ↦ dispatch_rewritten run after
    ]
  ]

  unfoldable pub dispatch_all : Run D → List StagedChange → Loop D
  dispatch_all run [] = Loop.runs run
  dispatch_all run (r ∷ rows) = elim (dispatch run r) [
    | runs after ↦ dispatch_all after rows
    | stops committed id reason ↦ Loop.stops committed id reason
    | panics ↦ Loop.panics
  ]
