-- ===== src/Staging/Atomic/Whole.antt =====
-- internal/staging/service.go, `Commit`: the phases one after the other.
use deploy_sentry.Base.{
  ◌==◌, nat_eq, string_eq, length, ℕ, ◌≡◌, refl, sym, ap, subst, ◌⊎◌, inl, inr, Bool, true, false,
  Option, none, some, List, [], ◌++◌, map, arith,
}
use deploy_sentry.Staging.Commit.{Reason, CommitError, Outcome, World, Service}
use deploy_sentry.Staging.Atomic.{
  dispatch_all-committed, unwritten, all_real, dispatch_all, Run, Loop, Deployed, succeeds,
}
use deploy_sentry.Staging.Model.{StagedChange}
use deploy_sentry.Staging.Service.{commit, commit_rows, after_commit, run_plan, failed_row, close}
use deploy_sentry.Staging.Handled.{AllHandled-dispatch_all}
use deploy_sentry.Staging.Order.{IsPlan-order}
use deploy_sentry.Staging.Preflight.{
  mutations_of, creates_of, known_of, check_rows, PlanError, plan_batch,
}
use deploy_sentry.Staging.Service.{empty_run}

module _ {D : Type 0} (s : Service D) (actor now : ℕ) (w : World D) (user org : ℕ)
    (ids : List ℕ) where
  -- Nothing has changed, and no deploy is reported but the empty one; or the whole batch is deployed.
  pub Whole : World D × Outcome → Type 0
  Whole r =
      ((r.0 ≡ w) × ((length ids ≡ 0) ⊎ (succeeds r.1 ≡ false)))
      ⊎ Deployed s actor now w user org ids r.0 r.1

  failed-Whole : (e : CommitError) → Whole (w, Outcome.failed e)
  unfolding Whole succeeds
  failed-Whole e = inl (refl, inr refl)

  failed_row-Whole :
      (committed : List ℕ) (id : ℕ) (reason : Reason) → Whole (w, failed_row s committed id reason)
  unfolding Whole succeeds failed_row
  failed_row-Whole committed id reason = inl (refl, inr refl)

  module _ (rows : List StagedChange) (loaded : s.get_by_ids w.db user org ids ≡ some rows)
      (all_found : length rows ≡ length ids) where
    abbrev ordered : List StagedChange
    ordered = creates_of s.texts rows ++ mutations_of s.texts rows

    close-Whole :
        (run : Run D)
        → dispatch_all s actor now (empty_run s w.db) ordered ≡ Loop.runs run
        → Whole (close s w user org run)
    unfolding close Whole after_commit empty_run all_real
    close-Whole run dispatched = by_delete (s.delete_by_ids run.db user org run.committed) refl
      where
        ids_are : (run.committed ≡ map (λ r. r.id) ordered) × (all_real run.entries ≡ true)
        ids_are =
            let (committed_is, clean) =
              dispatch_all-committed s actor now (empty_run s w.db) ordered run dispatched in
            (committed_is, clean refl)

        by_commit :
            (db : D) (b : Bool)
            → s.delete_by_ids run.db user org run.committed ≡ some db
            → s.commits db ≡ b
            → Whole (close s w user org run)
        by_commit db false eq eq' =
            let same : close s w user org run ≡ (w, Outcome.failed CommitError.tx_commit) =
              ground arith in
            subst Whole (sym same) (failed-Whole CommitError.tx_commit)
        by_commit db true eq eq' =
            let same : close s w user org run ≡ after_commit s w run db = ground arith in
            subst Whole (sym same) (
              inr (record {
                rows = rows;
                ordered = ordered;
                order = IsPlan-order s.texts rows;
                run = run;
                loaded = loaded;
                all_found = all_found;
                dispatched = dispatched;
                handled =
                    AllHandled-dispatch_all s actor now (empty_run s w.db) ordered run dispatched;
                removed = subst (λ l. s.delete_by_ids run.db user org l ≡ some db) ids_are.0 eq;
                hooks_after = refl;
                real_entries = ids_are.1;
                outcome_is =
                    ap
                      (λ l.
                        Outcome.result
                          (record { committed_ids = l; failed_id = none; failed_reason = none })
                          (unwritten s run.entries))
                      ids_are.0;
              }))

        by_delete :
            (found : Option D)
            → s.delete_by_ids run.db user org run.committed ≡ found
            → Whole (close s w user org run)
        by_delete none eq =
            let same : close s w user org run ≡ (w, Outcome.failed CommitError.delete_staged_rows) =
              ground arith in
            subst Whole (sym same) (failed-Whole CommitError.delete_staged_rows)
        by_delete (some db) eq = by_commit db (s.commits db) eq refl

    run_plan-Whole : Whole (run_plan s w user org actor now ordered)
    unfolding run_plan Whole succeeds
    run_plan-Whole = by_begin s.begins refl
      where
        by_loop :
            (loop : Loop D)
            → s.begins ≡ true
            → dispatch_all s actor now (empty_run s w.db) ordered ≡ loop
            → Whole (run_plan s w user org actor now ordered)
        by_loop (Loop.runs run) eq eq' =
            let same : run_plan s w user org actor now ordered ≡ close s w user org run =
              ground arith in
            subst Whole (sym same) (close-Whole run eq')
        by_loop (Loop.stops committed id reason) eq eq' =
            let same : run_plan s w user org actor now ordered
                ≡ (w, failed_row s committed id reason) =
              ground arith in
            subst Whole (sym same) (failed_row-Whole committed id reason)
        by_loop Loop.panics eq eq' =
            let same : run_plan s w user org actor now ordered ≡ (w, Outcome.panicked) =
              ground arith in
            subst Whole (sym same) (inl (refl, inr refl))

        by_begin : (b : Bool) → s.begins ≡ b → Whole (run_plan s w user org actor now ordered)
        by_begin false eq =
            let same : run_plan s w user org actor now ordered
                ≡ (w, Outcome.failed CommitError.begin_tx) =
              ground arith in
            subst Whole (sym same) (failed-Whole CommitError.begin_tx)
        by_begin true eq = by_loop (dispatch_all s actor now (empty_run s w.db) ordered) eq refl

    commit_rows-Whole : Whole (commit_rows s w user org actor now rows)
    unfolding commit_rows plan_batch
    commit_rows-Whole = by_plan (check_rows s.texts (known_of s.texts rows) rows) refl
      where
        by_plan :
            (error : Option PlanError)
            → check_rows s.texts (known_of s.texts rows) rows ≡ error
            → Whole (commit_rows s w user org actor now rows)
        by_plan none eq =
            let same : commit_rows s w user org actor now rows
                ≡ run_plan s w user org actor now ordered =
              ground arith in
            subst Whole (sym same) run_plan-Whole
        by_plan (some (PlanError.unreadable id)) eq =
            let same : commit_rows s w user org actor now rows
                ≡ (w, Outcome.failed CommitError.preflight) =
              ground arith in
            subst Whole (sym same) (failed-Whole CommitError.preflight)
        by_plan (some (PlanError.unresolved id ref)) eq =
            let same : commit_rows s w user org actor now rows
                ≡ (w, failed_row s [] id (Reason.unresolved id ref)) =
              ground arith in
            subst Whole (sym same) (failed_row-Whole [] id (Reason.unresolved id ref))

  -- A deploy is all or nothing. Either the database, the hooks that have run and the audit are what
  -- they were, and no row was asked for or no success is reported; or all rows asked for were found,
  -- and in an order that takes each of them once, the creates before the others, every one was
  -- given to the handler that is registered for it, which left the database to the next; exactly
  -- these are removed from the staged rows and reported, the hooks of the batch have run, and what
  -- its audit rows name is real.
  pub commit-Whole : Whole (commit s w user org actor now ids)
  unfolding commit Whole
  commit-Whole = by_empty (length ids == 0) refl
    where
      by_length :
          (rows : List StagedChange) (b : Bool)
          → (length ids == 0) ≡ false
          → s.get_by_ids w.db user org ids ≡ some rows
          → (length rows == length ids) ≡ b
          → Whole (commit s w user org actor now ids)
      by_length rows false eq eq' eq2 =
          let same : commit s w user org actor now ids
              ≡ (w, Outcome.failed CommitError.rows_missing) =
            ground arith in
          subst Whole (sym same) (failed-Whole CommitError.rows_missing)
      by_length rows true eq eq' eq2 =
          let same : commit s w user org actor now ids ≡ commit_rows s w user org actor now rows =
            ground arith in
          subst Whole (sym same) (
            commit_rows-Whole rows eq'
              (ground (arith, nat_eq.equal_iff (length rows) (length ids))))

      by_rows :
          (found : Option (List StagedChange))
          → (length ids == 0) ≡ false
          → s.get_by_ids w.db user org ids ≡ found
          → Whole (commit s w user org actor now ids)
      by_rows none eq eq' =
          let same : commit s w user org actor now ids ≡ (w, Outcome.failed CommitError.load_rows) =
            ground arith in
          subst Whole (sym same) (failed-Whole CommitError.load_rows)
      by_rows (some rows) eq eq' = by_length rows (length rows == length ids) eq eq' refl

      by_empty : (b : Bool) → (length ids == 0) ≡ b → Whole (commit s w user org actor now ids)
      by_empty false eq = by_rows (s.get_by_ids w.db user org ids) eq refl
      by_empty true eq =
          let same : commit s w user org actor now ids ≡ (
            w,
            Outcome.result (record { committed_ids = []; failed_id = none; failed_reason = none })
                [],
          ) =
            ground arith in
          subst Whole (sym same) (inl (refl, inl (ground (arith, nat_eq.equal_iff (length ids) 0))))
