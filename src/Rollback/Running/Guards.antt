-- ===== src/Rollback/Running/Guards.antt =====
-- internal/rollback/controller.go: no operation starts a rollback that is under way.
use deploy_sentry.Base.{
  subst, if◌then◌else◌, inr, sym, ◌∙◌, Bool, String, nat_eq, string_eq, ℕ, ◌≡◌, refl, true, false,
  Option, none, some, arith,
}
use deploy_sentry.Rollout.Floats.{Floats}
use deploy_sentry.Rollback.Model.{Effect, RollbackState, Job, RollbackContext, RollbackController}
use deploy_sentry.Rollback.Controller.{
  record_rollback, trigger_manual_rollback, transition_to, on_health_update, context_of, start,
  quiet, handle_unhealthy, handle_healthy,
}
use deploy_sentry.Rollback.Running.{context_of-set_context, blocked, Guarded}
use deploy_sentry.Rollback.Streak.Updates.{scored}
use deploy_sentry.Rollback.Streak.Starts.{context_of-record_rollback}

module _ (fl : Floats) where
  module _ (rc : RollbackController fl.F) (id now : ℕ) where
    keeps-handle_unhealthy :
        (s : fl.F) (j : ℕ)
        → blocked fl rc j ≡ true
        → blocked fl (handle_unhealthy fl rc id s now).controller j ≡ true
    unfolding blocked handle_unhealthy quiet start
    keeps-handle_unhealthy s j held = by_row (context_of fl rc id) refl
      where
        by_row :
            (found : Option (RollbackContext fl.F))
            → context_of fl rc id ≡ found
            → blocked fl (handle_unhealthy fl rc id s now).controller j ≡ true
        by_row none eq = ground arith
        by_row (some ctx) eq = ground (
          arith,
          nat_eq.equal_iff id j,
          context_of-set_context fl rc id
              (record ctx { state = RollbackState.evaluating; unhealthy_since = some now }) j,
          context_of-set_context fl rc id (record ctx { state = RollbackState.rolling_back }) j,
        )

    begins-handle_unhealthy :
        (s : fl.F) (job : Job fl.F)
        → (handle_unhealthy fl rc id s now).started ≡ some job
        → (blocked fl rc job.deployment_id ≡ false)
          × (blocked fl (handle_unhealthy fl rc id s now).controller job.deployment_id ≡ true)
    unfolding blocked handle_unhealthy quiet start
    begins-handle_unhealthy s job started = by_row (context_of fl rc id) refl
      where
        by_row :
            (found : Option (RollbackContext fl.F))
            → context_of fl rc id ≡ found
            → (blocked fl rc job.deployment_id ≡ false)
              × (blocked fl (handle_unhealthy fl rc id s now).controller job.deployment_id ≡ true)
        by_row none eq = ground arith
        by_row (some ctx) eq = ground (
          arith,
          nat_eq.equal_iff id id,
          context_of-set_context fl rc id (record ctx { state = RollbackState.rolling_back }) id,
        )

    pub handle_unhealthy-Guarded : (s : fl.F) → Guarded fl rc (handle_unhealthy fl rc id s now)
    handle_unhealthy-Guarded s = record {
      keeps = keeps-handle_unhealthy s;
      begins = begins-handle_unhealthy s;
    }

    keeps-handle_healthy :
        (j : ℕ)
        → blocked fl rc j ≡ true
        → blocked fl (handle_healthy fl rc id now).controller j ≡ true
    unfolding blocked handle_healthy quiet
    keeps-handle_healthy j held = by_row (context_of fl rc id) refl
      where
        by_row :
            (found : Option (RollbackContext fl.F))
            → context_of fl rc id ≡ found
            → blocked fl (handle_healthy fl rc id now).controller j ≡ true
        by_row none eq = ground arith
        by_row (some ctx) eq = ground (
          arith,
          nat_eq.equal_iff id j,
          context_of-set_context fl rc id
              (record ctx {
                state = RollbackState.healthy;
                unhealthy_since = none;
                error_rate_exceeded_at = none;
                latency_exceeded_at = none;
              })
              j,
        )

    begins_nothing : (job : Job fl.F) → (handle_healthy fl rc id now).started ≡ some job → ⊥
    unfolding handle_healthy quiet
    begins_nothing job started = ground arith

    pub handle_healthy-Guarded : Guarded fl rc (handle_healthy fl rc id now)
    handle_healthy-Guarded = record {
      keeps = keeps-handle_healthy;
      begins = λ job started. elim (begins_nothing job started) [ ];
    }

  blocked-scored :
      (rc : RollbackController fl.F) (id : ℕ) (s : fl.F) (now : ℕ) (ctx : RollbackContext fl.F)
      (j : ℕ)
      → context_of fl rc id ≡ some ctx
      → blocked fl (scored fl rc id s now ctx) j ≡ blocked fl rc j
  unfolding blocked
  blocked-scored rc id s now ctx j eq = ground (
    arith,
    nat_eq.equal_iff id j,
    context_of-set_context fl rc id (record ctx { last_health_score = s }) j,
  )

  quiet-Guarded : (rc : RollbackController fl.F) → Guarded fl rc (quiet fl rc)
  unfolding quiet
  quiet-Guarded rc = record {
    keeps = λ j held. held;
    begins = λ job started. elim (impossible job started) [ ];
  }
    where
      impossible : (job : Job fl.F) → none ≡ some job → ⊥
      impossible job eq = ground arith

  unscored-Guarded :
      (rc : RollbackController fl.F) (id : ℕ) (s : fl.F) (now : ℕ) (ctx : RollbackContext fl.F)
      (e : Effect fl.F)
      → context_of fl rc id ≡ some ctx
      → Guarded fl (scored fl rc id s now ctx) e
      → Guarded fl rc e
  unscored-Guarded rc id s now ctx e eq guarded = record {
    keeps = λ j held. guarded.keeps j (blocked-scored rc id s now ctx j eq ∙ held);
    begins = λ job started.
        let (free, held) = guarded.begins job started in
        (sym (blocked-scored rc id s now ctx job.deployment_id eq) ∙ free, held);
  }

  pub on_health_update-Guarded :
      (rc : RollbackController fl.F) (id : ℕ) (s : fl.F) (now : ℕ)
      → Guarded fl rc (on_health_update fl rc id s now)
  unfolding on_health_update
  on_health_update-Guarded rc id s now = by_row (context_of fl rc id) refl
    where
      by_test :
          (ctx : RollbackContext fl.F) (b : Bool)
          → Guarded fl (scored fl rc id s now ctx) (
              if b
              then handle_unhealthy fl (scored fl rc id s now ctx) id s now
              else handle_healthy fl (scored fl rc id s now ctx) id now)
      by_test ctx true = handle_unhealthy-Guarded (scored fl rc id s now ctx) id now s
      by_test ctx false = handle_healthy-Guarded (scored fl rc id s now ctx) id now

      by_row :
          (found : Option (RollbackContext fl.F))
          → context_of fl rc id ≡ found
          → Guarded fl rc (on_health_update fl rc id s now)
      by_row none eq =
          let same : on_health_update fl rc id s now ≡ quiet fl rc = ground arith in
          subst (Guarded fl rc) (sym same) (quiet-Guarded rc)
      by_row (some ctx) eq =
          let kept : RollbackController fl.F = scored fl rc id s now ctx in
          let after : Effect fl.F =
            if fl.lt s rc.health_threshold
            then handle_unhealthy fl kept id s now
            else handle_healthy fl kept id now in
          let same : on_health_update fl rc id s now ≡ after = ground arith in
          subst (Guarded fl rc) (sym same)
            (unscored-Guarded rc id s now ctx after eq (by_test ctx (fl.lt s rc.health_threshold)))

  module _ (rc : RollbackController fl.F) (id : ℕ) (reason : String) (now : ℕ) where
    keeps-trigger_manual_rollback :
        (e : Effect fl.F) (j : ℕ)
        → trigger_manual_rollback fl rc id reason now ≡ inr e
        → blocked fl rc j ≡ true
        → blocked fl e.controller j ≡ true
    unfolding trigger_manual_rollback start blocked
    keeps-trigger_manual_rollback e j done held = by_row (context_of fl rc id) refl
      where
        by_row :
            (found : Option (RollbackContext fl.F))
            → context_of fl rc id ≡ found
            → blocked fl e.controller j ≡ true
        by_row none eq = ground arith
        by_row (some ctx) eq = ground (
          arith,
          nat_eq.equal_iff id j,
          context_of-set_context fl rc id (record ctx { state = RollbackState.rolling_back }) j,
        )

    begins-trigger_manual_rollback :
        (e : Effect fl.F) (job : Job fl.F)
        → trigger_manual_rollback fl rc id reason now ≡ inr e
        → e.started ≡ some job
        → (blocked fl rc job.deployment_id ≡ false)
          × (blocked fl e.controller job.deployment_id ≡ true)
    unfolding trigger_manual_rollback start blocked
    begins-trigger_manual_rollback e job done started = by_row (context_of fl rc id) refl
      where
        by_row :
            (found : Option (RollbackContext fl.F))
            → context_of fl rc id ≡ found
            → (blocked fl rc job.deployment_id ≡ false)
              × (blocked fl e.controller job.deployment_id ≡ true)
        by_row none eq = ground arith
        by_row (some ctx) eq = ground (
          arith,
          nat_eq.equal_iff id id,
          context_of-set_context fl rc id (record ctx { state = RollbackState.rolling_back }) id,
        )

    pub trigger_manual_rollback-Guarded :
        (e : Effect fl.F) → trigger_manual_rollback fl rc id reason now ≡ inr e → Guarded fl rc e
    trigger_manual_rollback-Guarded e done = record {
      keeps = λ j held. keeps-trigger_manual_rollback e j done held;
      begins = λ job started. begins-trigger_manual_rollback e job done started;
    }

  -- The return of an `Execute` starts nothing, and leaves the deployment blocked.
  module _ (rc : RollbackController fl.F) (job : Job fl.F) (now : ℕ) where
    abbrev returned : Effect fl.F
    returned =
        transition_to fl (record_rollback fl rc job now) job.deployment_id RollbackState.rolled_back
          job.reason job.automatic now

    pub returned_keeps : (j : ℕ) → blocked fl rc j ≡ true → blocked fl returned.controller j ≡ true
    unfolding transition_to blocked
    returned_keeps j held =
        by_row (context_of fl (record_rollback fl rc job now) job.deployment_id) refl
      where
        by_row :
            (found : Option (RollbackContext fl.F))
            → context_of fl (record_rollback fl rc job now) job.deployment_id ≡ found
            → blocked fl returned.controller j ≡ true
        by_row none eq = ground (arith, context_of-record_rollback fl rc job now j)
        by_row (some ctx) eq = ground (
          arith,
          context_of-record_rollback fl rc job now j,
          context_of-set_context fl (record_rollback fl rc job now) job.deployment_id
              (record ctx { state = RollbackState.rolled_back }) j,
        )

    pub returned_starts : returned.started ≡ none
    unfolding transition_to
    returned_starts = ground arith
