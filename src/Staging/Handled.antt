-- ===== src/Staging/Handled.antt =====
-- internal/staging/service.go, the loop of `Commit`: which handler each row of a batch is given to,
-- and what it leaves.
use deploy_sentry.Base.{
  nat_eq, string_eq, ℕ, String, ◌≡◌, refl, ◌⊎◌, inl, inr, Option, none, some, List, [], ◌∷◌, arith,
}
use deploy_sentry.Staging.Commit.{
  Applied, dispatch_all, create_handler, commit_key, Created, dispatch_rewritten, Loop,
  dispatch_create, dispatch, after_mutation, after_create, with_hook, Run, Service,
}
use deploy_sentry.Staging.Model.{StagedChange}
use deploy_sentry.Staging.Resolver.{rewrite_row, bind}

module _ {D : Type 0} (s : Service D) (actor now : ℕ) where
  -- A row with a provisional identifier for which a create is registered: the create made of the
  -- database what it is after, and its real identifier is bound to the provisional one.
  pub record Minted (run : Run D) (r : StagedChange) (after : Run D) : Type 0 where
    pub provisional : ℕ
    pub registry : String → Option (D → StagedChange → Created D)
    pub create : D → StagedChange → Created D
    pub real : ℕ
    pub action : String
    pub hook : Option ℕ
    pub is_create : r.provisional_id ≡ some provisional
    pub registered : s.creates ≡ some registry
    pub found : registry (commit_key r.resource_type r.action) ≡ some create
    pub creates : create run.db r ≡ Created.created after.db real action hook
    pub binds : bind run.resolver provisional real ≡ some after.resolver
    pub hooked : after.hooks ≡ with_hook s actor now run.hooks hook

  -- A row without a provisional identifier, or for which no create is registered: the handler of what
  -- the row is, its provisional identifiers resolved, made of the database what it is after.
  pub record Changed (run : Run D) (r : StagedChange) (after : Run D) : Type 0 where
    pub row : StagedChange
    pub handler : D → StagedChange → Applied D
    pub action : String
    pub no_create :
        (provisional : ℕ) (registry : String → Option (D → StagedChange → Created D))
        → r.provisional_id ≡ some provisional
        → s.creates ≡ some registry
        → registry (commit_key r.resource_type r.action) ≡ none
    pub resolved : rewrite_row s.texts run.resolver r ≡ some row
    pub found : s.handlers (commit_key row.resource_type row.action) ≡ some handler
    pub changes : handler run.db row ≡ Applied.applied after.db action
    pub binds_nothing : after.resolver ≡ run.resolver
    pub hooks_nothing : after.hooks ≡ run.hooks

  -- The rows are given to their handlers one after the other.
  abbrev pub AllHandled : Run D → List StagedChange → Run D → Type 0
  AllHandled run [] after = run ≡ after
  AllHandled run (r ∷ rows) after =
      (next : Run D) × (Minted run r next ⊎ Changed run r next) × AllHandled next rows after

  Minted-dispatch_create :
      (run : Run D) (r : StagedChange) (create : D → StagedChange → Created D) (after : Run D)
      → create_handler s actor now r ≡ some create
      → dispatch_create s actor now run r create ≡ Loop.runs after
      → Minted run r after
  unfolding dispatch_create after_create create_handler
  Minted-dispatch_create run r create after chosen done =
      by_provisional r.provisional_id s.creates refl refl
    where
      refused_stops : (message : String) → create run.db r ≡ Created.refused message → ⊥
      refused_stops message eq = ground arith

      by_answer :
          (p : ℕ) (registry : String → Option (D → StagedChange → Created D)) (answer : Created D)
          → r.provisional_id ≡ some p
          → s.creates ≡ some registry
          → create run.db r ≡ answer
          → Minted run r after
      by_answer p registry (Created.refused message) e e' eq = elim (refused_stops message eq) [ ]
      by_answer p registry (Created.created db real action hook) e e' eq = record {
        provisional = p;
        registry = registry;
        create = create;
        real = real;
        action = action;
        hook = hook;
        is_create = e;
        registered = e';
        found = ground arith;
        creates = ground arith;
        binds = ground arith;
        hooked = ground arith;
      }

      by_provisional :
          (p : Option ℕ) (registry : Option (String → Option (D → StagedChange → Created D)))
          → r.provisional_id ≡ p
          → s.creates ≡ registry
          → Minted run r after
      by_provisional (some p) (some registry) e e' =
          by_answer p registry (create run.db r) e e' refl
      by_provisional none registry e e' = elim (nothing e) [ ]
        where
          nothing : r.provisional_id ≡ none → ⊥
          nothing e = ground arith
      by_provisional (some p) none e e' = elim (nothing e e') [ ]
        where
          nothing : r.provisional_id ≡ some p → s.creates ≡ none → ⊥
          nothing e e' = ground arith

  Changed-dispatch_rewritten :
      (run : Run D) (r row : StagedChange) (after : Run D)
      → create_handler s actor now r ≡ none
      → rewrite_row s.texts run.resolver r ≡ some row
      → dispatch_rewritten s actor now run row ≡ Loop.runs after
      → Changed run r after
  unfolding dispatch_rewritten after_mutation create_handler
  Changed-dispatch_rewritten run r row after chosen resolved done =
      by_handler (s.handlers (commit_key row.resource_type row.action)) refl
    where
      unhandled : s.handlers (commit_key row.resource_type row.action) ≡ none → ⊥
      unhandled eq = ground arith

      refused_stops :
          (handler : D → StagedChange → Applied D) (message : String)
          → s.handlers (commit_key row.resource_type row.action) ≡ some handler
          → handler run.db row ≡ Applied.refused message
          → ⊥
      refused_stops handler message eq eq' = ground arith

      by_answer :
          (handler : D → StagedChange → Applied D) (answer : Applied D)
          → s.handlers (commit_key row.resource_type row.action) ≡ some handler
          → handler run.db row ≡ answer
          → Changed run r after
      by_answer handler (Applied.refused message) eq eq' =
          elim (refused_stops handler message eq eq') [ ]
      by_answer handler (Applied.applied db action) eq eq' = record {
        row = row;
        handler = handler;
        action = action;
        no_create = λ p registry e e'. ground (arith, chosen, e, e');
        resolved = resolved;
        found = eq;
        changes = ground arith;
        binds_nothing = ground arith;
        hooks_nothing = ground arith;
      }

      by_handler :
          (found : Option (D → StagedChange → Applied D))
          → s.handlers (commit_key row.resource_type row.action) ≡ found
          → Changed run r after
      by_handler none eq = elim (unhandled eq) [ ]
      by_handler (some handler) eq = by_answer handler (handler run.db row) eq refl

  handled-dispatch :
      (run : Run D) (r : StagedChange) (after : Run D)
      → dispatch s actor now run r ≡ Loop.runs after
      → Minted run r after ⊎ Changed run r after
  unfolding dispatch
  handled-dispatch run r after done = by_create (create_handler s actor now r) refl
    where
      by_row :
          (found : Option StagedChange)
          → create_handler s actor now r ≡ none
          → rewrite_row s.texts run.resolver r ≡ found
          → Minted run r after ⊎ Changed run r after
      by_row none eq eq' = elim (impossible eq eq') [ ]
        where
          impossible :
              create_handler s actor now r ≡ none → rewrite_row s.texts run.resolver r ≡ none → ⊥
          impossible eq eq' = ground arith
      by_row (some row) eq eq' =
          inr (Changed-dispatch_rewritten run r row after eq eq' (ground arith))

      by_create :
          (found : Option (D → StagedChange → Created D))
          → create_handler s actor now r ≡ found
          → Minted run r after ⊎ Changed run r after
      by_create none eq = by_row (rewrite_row s.texts run.resolver r) eq refl
      by_create (some create) eq = inl (Minted-dispatch_create run r create after eq (ground arith))

  pub AllHandled-dispatch_all :
      (run : Run D) (rows : List StagedChange) (after : Run D)
      → dispatch_all s actor now run rows ≡ Loop.runs after
      → AllHandled run rows after
  unfolding dispatch_all
  AllHandled-dispatch_all run [] after done = ground arith
  AllHandled-dispatch_all run (r ∷ rows) after done =
      by_step (dispatch s actor now run r) refl (λ next. AllHandled-dispatch_all next rows after)
    where
      by_step :
          (loop : Loop D)
          → dispatch s actor now run r ≡ loop
          → ((next : Run D)
              → dispatch_all s actor now next rows ≡ Loop.runs after
              → AllHandled next rows after)
          → AllHandled run (r ∷ rows) after
      by_step (Loop.runs next) eq rest =
          (next, handled-dispatch run r next eq, rest next (ground arith))
      by_step (Loop.stops committed id reason) eq rest = elim (stopped eq) [ ]
        where
          stopped : dispatch s actor now run r ≡ Loop.stops committed id reason → ⊥
          stopped eq = ground arith
      by_step Loop.panics eq rest = elim (panicked_loop eq) [ ]
        where
          panicked_loop : dispatch s actor now run r ≡ Loop.panics → ⊥
          panicked_loop eq = ground arith
