-- ===== src/Staging/Atomic.antt =====
-- internal/staging/service.go, `Commit`: all of the batch or nothing.
pub mod Whole
use deploy_sentry.Base.{
  append_nil, append_assoc, nat_eq, string_eq, is_some, length, all, ℕ, String, ◌≡◌, refl, ap, ◌∙◌,
  Bool, true, false, not, Option, none, some, List, [], ◌∷◌, ◌++◌, map, arith,
}
use deploy_sentry.Staging.Commit.{
  World, Applied, dispatch_all, create_handler, commit_key, Created, build_audit_entry, panicked,
  dispatch_rewritten, Loop, dispatch_create, failed, dispatch, after_mutation, after_create, Run,
  result, Service, Outcome,
}
use deploy_sentry.Staging.Model.{StagedChange, AuditLogEntry}
use deploy_sentry.Staging.Resolver.{Resolver, rewrite_row}
use deploy_sentry.Staging.Provisional.{is_provisional}
use deploy_sentry.Staging.Service.{unwritten, empty_run}
use deploy_sentry.Staging.Order.{IsPlan}
use deploy_sentry.Staging.Handled.{AllHandled}

-- The identifiers that the audit rows name are real.
unfoldable pub all_real : List AuditLogEntry → Bool
all_real entries = all (λ e. not (is_provisional e.entity_id)) entries

unfoldable pub succeeds : Outcome → Bool
succeeds (result r unaudited) = not (is_some r.failed_id)
succeeds (failed error) = false
succeeds panicked = false

all_real-append :
    (entries : List AuditLogEntry) (e : AuditLogEntry)
    → all_real entries ≡ true
    → is_provisional e.entity_id ≡ false
    → all_real (entries ++ (e ∷ [])) ≡ true
unfolding all_real
all_real-append [] e real new = ground arith
all_real-append (x ∷ entries) e real new = ground (arith, all_real-append entries e)

module _ {D : Type 0} (s : Service D) (actor now : ℕ) where
  -- A row that is dispatched is the next of the committed, and what its audit row names is real.
  Dispatched : Run D → StagedChange → Run D → Type 0
  Dispatched run r after =
      (after.committed ≡ run.committed ++ (r.id ∷ []))
      × (all_real run.entries ≡ true → all_real after.entries ≡ true)

  Dispatched-after_create :
      (run : Run D) (r : StagedChange) (db : D) (real : ℕ) (action : String) (hook : Option ℕ)
      (after : Run D)
      → after_create s actor now run r db real action hook ≡ Loop.runs after
      → Dispatched run r after
  unfolding Dispatched after_create
  Dispatched-after_create run r db real action hook after done = ground (
    arith,
    all_real-append run.entries
        (record (build_audit_entry s actor now r action) { entity_id = real }),
  )

  Dispatched-after_mutation :
      (run : Run D) (r : StagedChange) (db : D) (action : String) (after : Run D)
      → after_mutation s actor now run r db action ≡ Loop.runs after
      → Dispatched run r after
  unfolding Dispatched after_mutation
  Dispatched-after_mutation run r db action after done =
      ground (arith, all_real-append run.entries (build_audit_entry s actor now r action))

  id-rewrite_row :
      (m : Resolver) (r after : StagedChange)
      → rewrite_row s.texts m r ≡ some after
      → after.id ≡ r.id
  unfolding rewrite_row
  id-rewrite_row m r after done = ground arith

  Dispatched-dispatch_create :
      (run : Run D) (r : StagedChange) (handler : D → StagedChange → Created D) (after : Run D)
      → dispatch_create s actor now run r handler ≡ Loop.runs after
      → Dispatched run r after
  unfolding dispatch_create
  Dispatched-dispatch_create run r handler after done = by_answer (handler run.db r) refl
    where
      refused_stops : (message : String) → handler run.db r ≡ Created.refused message → ⊥
      refused_stops message eq = ground arith

      by_answer : (answer : Created D) → handler run.db r ≡ answer → Dispatched run r after
      by_answer (Created.refused message) eq = elim (refused_stops message eq) [ ]
      by_answer (Created.created db real action hook) eq =
          Dispatched-after_create run r db real action hook after (ground arith)

  Dispatched-dispatch_rewritten :
      (run : Run D) (r after_row : StagedChange) (after : Run D)
      → after_row.id ≡ r.id
      → dispatch_rewritten s actor now run after_row ≡ Loop.runs after
      → Dispatched run r after
  unfolding dispatch_rewritten Dispatched
  Dispatched-dispatch_rewritten run r row after same done =
      by_handler (s.handlers (commit_key row.resource_type row.action)) refl
    where
      unhandled : s.handlers (commit_key row.resource_type row.action) ≡ none → ⊥
      unhandled eq = ground arith

      by_answer :
          (handler : D → StagedChange → Applied D) (answer : Applied D)
          → s.handlers (commit_key row.resource_type row.action) ≡ some handler
          → handler run.db row ≡ answer
          → Dispatched run r after
      by_answer handler (Applied.refused message) eq eq' = ground arith
      by_answer handler (Applied.applied db action) eq eq' =
          ground (arith, Dispatched-after_mutation run row db action after, same)

      by_handler :
          (found : Option (D → StagedChange → Applied D))
          → s.handlers (commit_key row.resource_type row.action) ≡ found
          → Dispatched run r after
      by_handler none eq = elim (unhandled eq) [ ]
      by_handler (some handler) eq = by_answer handler (handler run.db row) eq refl

  Dispatched-dispatch :
      (run : Run D) (r : StagedChange) (after : Run D)
      → dispatch s actor now run r ≡ Loop.runs after
      → Dispatched run r after
  unfolding dispatch
  Dispatched-dispatch run r after done = by_create (create_handler s actor now r) refl
    where
      by_row :
          (found : Option StagedChange)
          → create_handler s actor now r ≡ none
          → rewrite_row s.texts run.resolver r ≡ found
          → Dispatched run r after
      by_row none eq eq' = elim (impossible eq eq') [ ]
        where
          impossible :
              create_handler s actor now r ≡ none → rewrite_row s.texts run.resolver r ≡ none → ⊥
          impossible eq eq' = ground arith
      by_row (some row) eq eq' =
          Dispatched-dispatch_rewritten run r row after (id-rewrite_row run.resolver r row eq')
            (ground arith)

      by_create :
          (found : Option (D → StagedChange → Created D))
          → create_handler s actor now r ≡ found
          → Dispatched run r after
      by_create none eq = by_row (rewrite_row s.texts run.resolver r) eq refl
      by_create (some handler) eq = Dispatched-dispatch_create run r handler after (ground arith)

  dispatch_all-committed :
      (run : Run D) (rows : List StagedChange) (after : Run D)
      → dispatch_all s actor now run rows ≡ Loop.runs after
      → (after.committed ≡ run.committed ++ map (λ r. r.id) rows)
        × (all_real run.entries ≡ true → all_real after.entries ≡ true)
  unfolding dispatch_all Dispatched
  dispatch_all-committed run [] after done = ground (arith, append_nil run.committed)
  dispatch_all-committed run (r ∷ rows) after done =
      by_step (dispatch s actor now run r) refl (λ next. dispatch_all-committed next rows after)
    where
      by_next :
          (next : Run D)
          → Dispatched run r next
          → (after.committed ≡ next.committed ++ map (λ r. r.id) rows)
            × (all_real next.entries ≡ true → all_real after.entries ≡ true)
          → (after.committed ≡ run.committed ++ map (λ r. r.id) (r ∷ rows))
            × (all_real run.entries ≡ true → all_real after.entries ≡ true)
      by_next next (one, real) (rest, still) = (
        rest
            ∙ ap (λ l. l ++ map (λ r. r.id) rows) one
            ∙ append_assoc run.committed (r.id ∷ []) (map (λ r. r.id) rows),
        λ clean. still (real clean),
      )

      by_step :
          (loop : Loop D)
          → dispatch s actor now run r ≡ loop
          → ((next : Run D)
              → dispatch_all s actor now next rows ≡ Loop.runs after
              → (after.committed ≡ next.committed ++ map (λ r. r.id) rows)
                × (all_real next.entries ≡ true → all_real after.entries ≡ true))
          → (after.committed ≡ run.committed ++ map (λ r. r.id) (r ∷ rows))
            × (all_real run.entries ≡ true → all_real after.entries ≡ true)
      by_step (Loop.runs next) eq rest =
          by_next next (Dispatched-dispatch run r next eq) (rest next (ground arith))
      by_step (Loop.stops committed id reason) eq rest = ground arith
      by_step Loop.panics eq rest = ground arith

  -- What a deploy that goes through leaves.
  pub record Deployed (w : World D) (user org : ℕ) (ids : List ℕ) (after : World D)
      (outcome : Outcome) : Type 0 where
    pub rows : List StagedChange
    pub ordered : List StagedChange
    pub run : Run D
    pub loaded : s.get_by_ids w.db user org ids ≡ some rows
    pub all_found : length rows ≡ length ids
    pub order : IsPlan rows ordered
    pub dispatched : dispatch_all s actor now (empty_run s w.db) ordered ≡ Loop.runs run
    pub handled : AllHandled s actor now (empty_run s w.db) ordered run
    pub removed : s.delete_by_ids run.db user org (map (λ r. r.id) ordered) ≡ some after.db
    pub hooks_after : after.hooks_run ≡ w.hooks_run ++ run.hooks
    pub real_entries : all_real run.entries ≡ true
    pub outcome_is :
        outcome
        ≡ Outcome.result
            (record {
              committed_ids = map (λ r. r.id) ordered;
              failed_id = none;
              failed_reason = none;
            })
            (unwritten s run.entries)
