-- ===== src/Rollback/Streak/Updates.antt =====
-- internal/rollback/controller.go, `OnHealthUpdate`: since when a deployment is under evaluation.
use deploy_sentry.Base.{nat_eq, string_eq, ℕ, ◌≡◌, refl, ◌≢◌, ◌⊎◌, true, Option, none, some, arith}
use deploy_sentry.Rollout.Floats.{Floats}
use deploy_sentry.Rollback.Model.{RollbackState, RollbackContext, RollbackController}
use deploy_sentry.Rollback.Controller.{
  on_health_update, quiet, start, context_of, set_context, handle_unhealthy, handle_healthy,
}
use deploy_sentry.Rollback.Streak.{
  evaluating_since-set_context, context_of-set_context, evaluating_since,
}

module _ (fl : Floats) (rc : RollbackController fl.F) (id : ℕ) (s : fl.F) (now : ℕ) where
  -- The controller after the score of the update is kept.
  abbrev pub scored : RollbackContext fl.F → RollbackController fl.F
  scored ctx = set_context fl rc id (record ctx { last_health_score = s })

  pub evaluating_since-scored :
      (ctx : RollbackContext fl.F) (j : ℕ)
      → context_of fl rc id ≡ some ctx
      → evaluating_since fl (scored ctx) j ≡ evaluating_since fl rc j
  unfolding evaluating_since
  evaluating_since-scored ctx j known = ground (
    arith,
    context_of-set_context fl rc id (record ctx { last_health_score = s }) j,
    nat_eq.equal_iff id j,
  )

  pub evaluating_since-none : (j : ℕ) → context_of fl rc j ≡ none → evaluating_since fl rc j ≡ none
  unfolding evaluating_since
  evaluating_since-none j eq = ground arith

  pub evaluating_since-handle_unhealthy :
      (j t : ℕ)
      → evaluating_since fl (handle_unhealthy fl rc id s now).controller j ≡ some t
      → (id ≡ j × now ≡ t) ⊎ (evaluating_since fl rc j ≡ some t)
  unfolding handle_unhealthy start quiet
  evaluating_since-handle_unhealthy j t since = by_row (context_of fl rc id) refl
    where
      by_row :
          (found : Option (RollbackContext fl.F))
          → context_of fl rc id ≡ found
          → (id ≡ j × now ≡ t) ⊎ (evaluating_since fl rc j ≡ some t)
      by_row none eq = ground arith
      by_row (some ctx) eq = ground (
        arith,
        nat_eq.equal_iff id j,
        evaluating_since-set_context fl rc id
            (record ctx { state = RollbackState.evaluating; unhealthy_since = some now }) j,
        evaluating_since-set_context fl rc id (record ctx { state = RollbackState.rolling_back }) j,
      )

  pub evaluating_since-handle_healthy :
      (j t : ℕ)
      → evaluating_since fl (handle_healthy fl rc id now).controller j ≡ some t
      → (id ≢ j) × (evaluating_since fl rc j ≡ some t)
  unfolding handle_healthy quiet evaluating_since
  evaluating_since-handle_healthy j t since = by_row (context_of fl rc id) refl
    where
      by_row :
          (found : Option (RollbackContext fl.F))
          → context_of fl rc id ≡ found
          → (id ≢ j) × (evaluating_since fl rc j ≡ some t)
      by_row none eq = ground (arith, nat_eq.equal_iff id j)
      by_row (some ctx) eq = ground (
        arith,
        nat_eq.equal_iff id j,
        evaluating_since-set_context fl rc id
            (record ctx {
              state = RollbackState.healthy;
              unhealthy_since = none;
              error_rate_exceeded_at = none;
              latency_exceeded_at = none;
            })
            j,
      )

module _ (fl : Floats) (rc : RollbackController fl.F) (id : ℕ) (s : fl.F) (now : ℕ) where
  -- An update leaves a deployment under evaluation since an instant when it started the evaluation at
  -- that instant, when it was below the threshold, or when it was another deployment's.
  pub evaluating_since-on_health_update :
      (j t : ℕ)
      → evaluating_since fl (on_health_update fl rc id s now).controller j ≡ some t
      → ((id ≡ j)
          × (fl.lt s rc.health_threshold ≡ true)
          × ((now ≡ t) ⊎ (evaluating_since fl rc j ≡ some t)))
        ⊎ ((id ≢ j) × (evaluating_since fl rc j ≡ some t))
  unfolding on_health_update quiet
  evaluating_since-on_health_update j t since = by_row (context_of fl rc id) refl
    where
      by_row :
          (found : Option (RollbackContext fl.F))
          → context_of fl rc id ≡ found
          → ((id ≡ j)
              × (fl.lt s rc.health_threshold ≡ true)
              × ((now ≡ t) ⊎ (evaluating_since fl rc j ≡ some t)))
            ⊎ ((id ≢ j) × (evaluating_since fl rc j ≡ some t))
      by_row none eq = ground (arith, evaluating_since-none fl rc id s now id eq)
      by_row (some ctx) eq =
          let kept : RollbackController fl.F = scored fl rc id s now ctx in
          ground (
            arith,
            evaluating_since-scored fl rc id s now ctx j eq,
            evaluating_since-handle_unhealthy fl kept id s now j t,
            evaluating_since-handle_healthy fl kept id s now j t,
          )
