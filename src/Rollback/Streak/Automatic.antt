-- ===== src/Rollback/Streak/Automatic.antt =====
-- internal/rollback/controller.go: the automatic rollback.
use deploy_sentry.Base.{
  subst, ◌∷◌, ◌∙◌, [], sym, List, nat_eq, string_eq, ℕ, ◌≡◌, refl, true, false, Option, none, some,
  arith,
}
use deploy_sentry.Base.Int.{leb_ℤ, sub_time}
use deploy_sentry.Rollout.Floats.{Floats}
use deploy_sentry.Rollback.Controller.{
  on_health_update, set_context, handle_healthy, context_of, start, is_in_cooldown, quiet,
  handle_unhealthy, unhealthy_long_enough,
}
use deploy_sentry.Rollback.Model.{RollbackState, RollbackContext, Job, RollbackController}
use deploy_sentry.Rollback.Streak.{more, Streak, evaluating_since}
use deploy_sentry.Rollback.Runs.{after, Op, World}
use deploy_sentry.Rollback.Streak.Updates.{evaluating_since-scored, scored}
use deploy_sentry.Rollback.Streak.Starts.{window-after, evaluating_since-after, threshold-after}

module _ (fl : Floats) where
  -- The evaluation under which a rollback of the deployment starts at an instant.
  pub record Evaluated (rc : RollbackController fl.F) (id now : ℕ) : Type 0 where
    pub since : ℕ
    pub evaluated : evaluating_since fl rc id ≡ some since
    pub long_enough : leb_ℤ rc.evaluation_window (sub_time now since) ≡ true

  Evaluated-unhealthy_long_enough :
      (rc : RollbackController fl.F) (id now : ℕ) (ctx : RollbackContext fl.F) (since : Option ℕ)
      → context_of fl rc id ≡ some ctx
      → ctx.state ≡ RollbackState.evaluating
      → ctx.unhealthy_since ≡ since
      → unhealthy_long_enough fl rc ctx now ≡ true
      → Evaluated rc id now
  unfolding unhealthy_long_enough evaluating_since
  Evaluated-unhealthy_long_enough rc id now ctx none eq state since long =
      elim (impossible since long) [ ]
    where
      impossible : ctx.unhealthy_since ≡ none → unhealthy_long_enough fl rc ctx now ≡ true → ⊥
      impossible since long = ground arith
  Evaluated-unhealthy_long_enough rc id now ctx (some t) eq state since long = record {
    since = t;
    evaluated = ground arith;
    long_enough = ground arith;
  }

  -- What starts is an automatic rollback of a deployment under evaluation.
  pub record AutomaticStart (rc : RollbackController fl.F) (id now : ℕ) (job : Job fl.F)
      : Type 0 where
    pub same_deployment : job.deployment_id ≡ id
    pub is_automatic : job.automatic ≡ true
    pub not_in_cooldown : is_in_cooldown fl rc id now ≡ false
    pub after_evaluation : Evaluated rc id now

  started-handle_unhealthy :
      (rc : RollbackController fl.F) (id : ℕ) (s : fl.F) (now : ℕ) (job : Job fl.F)
      → (handle_unhealthy fl rc id s now).started ≡ some job
      → AutomaticStart rc id now job
  unfolding handle_unhealthy quiet start
  started-handle_unhealthy rc id s now job started = by_row (context_of fl rc id) refl
    where
      by_row :
          (found : Option (RollbackContext fl.F))
          → context_of fl rc id ≡ found
          → AutomaticStart rc id now job
      by_row none eq = elim (impossible eq) [ ]
        where
          impossible : context_of fl rc id ≡ none → ⊥
          impossible eq = ground arith
      by_row (some ctx) eq = record {
        same_deployment = ground arith;
        is_automatic = ground arith;
        not_in_cooldown = ground arith;
        after_evaluation =
            Evaluated-unhealthy_long_enough rc id now ctx ctx.unhealthy_since eq (ground arith) refl
              (ground arith);
      }

  quiet_when_healthy :
      (rc : RollbackController fl.F) (id now : ℕ) (job : Job fl.F)
      → (handle_healthy fl rc id now).started ≡ some job
      → ⊥
  unfolding handle_healthy quiet
  quiet_when_healthy rc id now job = ground arith

  unscored :
      (rc : RollbackController fl.F) (id : ℕ) (s : fl.F) (now : ℕ) (job : Job fl.F)
      (ctx : RollbackContext fl.F)
      → context_of fl rc id ≡ some ctx
      → AutomaticStart (scored fl rc id s now ctx) id now job
      → AutomaticStart rc id now job
  unfolding set_context is_in_cooldown
  unscored rc id s now job ctx eq begun = record {
    same_deployment = begun.same_deployment;
    is_automatic = begun.is_automatic;
    not_in_cooldown = begun.not_in_cooldown;
    after_evaluation = record {
      since = begun.after_evaluation.since;
      evaluated =
          sym (evaluating_since-scored fl rc id s now ctx id eq) ∙ begun.after_evaluation.evaluated;
      long_enough = begun.after_evaluation.long_enough;
    };
  }

  started-on_health_update :
      (rc : RollbackController fl.F) (id : ℕ) (s : fl.F) (now : ℕ) (job : Job fl.F)
      → (on_health_update fl rc id s now).started ≡ some job
      → (fl.lt s rc.health_threshold ≡ true) × AutomaticStart rc id now job
  unfolding on_health_update quiet
  started-on_health_update rc id s now job started = by_row (context_of fl rc id) refl
    where
      by_row :
          (found : Option (RollbackContext fl.F))
          → context_of fl rc id ≡ found
          → (fl.lt s rc.health_threshold ≡ true) × AutomaticStart rc id now job
      by_row none eq = elim (impossible eq) [ ]
        where
          impossible : context_of fl rc id ≡ none → ⊥
          impossible eq = ground arith
      by_row (some ctx) eq = (
        below,
        unscored rc id s now job ctx eq (
            started-handle_unhealthy (scored fl rc id s now ctx) id s now job
              (ground (arith, quiet_when_healthy (scored fl rc id s now ctx) id now job))),
      )
        where
          below : fl.lt s rc.health_threshold ≡ true
          below = ground (arith, quiet_when_healthy (scored fl rc id s now ctx) id now job)

  -- After any operations of a controller that watched nothing, a health update starts a rollback only
  -- of its own deployment, outside of the cooldown, and when the updates of the deployment were all
  -- below the threshold in one streak that began at least the evaluation window ago.
  pub started-Streak :
      (w : World fl.F) (ops : List (Op fl.F)) (id : ℕ) (s : fl.F) (now : ℕ) (job : Job fl.F)
      → w.controller.states ≡ []
      → (on_health_update fl (after fl w ops).controller id s now).started ≡ some job
      → (job.deployment_id ≡ id)
        × (is_in_cooldown fl (after fl w ops).controller id now ≡ false)
        × (t : ℕ) × Streak fl w.controller.health_threshold id t (Op.update id s now ∷ ops)
        × (leb_ℤ w.controller.evaluation_window (sub_time now t) ≡ true)
  started-Streak w ops id s now job new started =
      let (below, begun) =
        started-on_health_update (after fl w ops).controller id s now job started in
      let ev : Evaluated (after fl w ops).controller id now = begun.after_evaluation in
      (
        begun.same_deployment,
        begun.not_in_cooldown,
        ev.since,
        more (subst (λ x. fl.lt s x ≡ true) (threshold-after fl w ops) below)
            (evaluating_since-after fl w ops id ev.since new ev.evaluated),
        subst (λ x. leb_ℤ x (sub_time now ev.since) ≡ true) (window-after fl w ops) ev.long_enough,
      )
